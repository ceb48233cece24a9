-- ===== src/Generators/Written.antt =====
-- That the DOM writer can write what the generators generate.
use cwmp_acs_go.Prelude.{
  String, true, none, some, List, [], ◌≡◌, ◌≢◌, refl, sym, subst, arith, ◌==◌, inl, inr, Bool-cases,
  Option-cases, All, append-nil,
}
use cwmp_acs_go.Cwmp.Structs.{Message, get_name, get_id}
use cwmp_acs_go.Xml.Structs.{Namespace}
use cwmp_acs_go.Xml.Namespaces.{NamespaceMap}
use cwmp_acs_go.Xml.Dom.{Element, Token, new_element, encode}
use cwmp_acs_go.Xml.Dom.Written.{
  IsNamed, Nests, Writes, encode-Writes, new_element-IsNamed, add_attr-IsNamed, set_text-IsNamed,
  add_child-IsNamed, add_children-IsNamed,
}
use cwmp_acs_go.Generators.{
  Spaces, spaces_of, leaf, qualified, declare, must_understand, generate_message, header_extra,
  rpc_content, asserts, generate, generate_tokens,
}
use cwmp_acs_go.Generators.Content.{qualified_named, ContentIsNamed, rpc_content-IsNamed}

module _ (ns : Spaces) where
  -- An element with a qualified name.
  prefixed-IsNamed :
      (space : Namespace) (name : String) → IsNamed (new_element (qualified space name))
  prefixed-IsNamed space name = new_element-IsNamed _ (qualified_named space name)

  understood-IsNamed :
      (space : Namespace) (name t : String)
      → IsNamed (must_understand ns (leaf (qualified space name) t))
  understood-IsNamed space name t =
      add_attr-IsNamed _ _ (leaf (qualified space name) t)
        (set_text-IsNamed t (new_element (qualified space name)) (prefixed-IsNamed space name))

  declare-IsNamed : (space : Namespace) (e : Element) → IsNamed e → IsNamed (declare space e)
  declare-IsNamed space e h = add_attr-IsNamed _ _ e h

  header_extra-IsNamed : (message : Message) → All IsNamed (header_extra ns message)
  header_extra-IsNamed (Message.inform_response m) =
      elim (Bool-cases (m.base.header.use_cwmp_version == "")) [
        | inl e ↦ rw e tt
        | inr n ↦ rw n (understood-IsNamed ns.cwmp "UseCWMPVersion" _, tt)
      ]
  header_extra-IsNamed _ = tt

  generate_message-IsNamed :
      (message : Message) (extra content : List Element)
      → All IsNamed extra
      → All IsNamed content
      → IsNamed (generate_message ns message extra content)
  unfolding generate_message
  generate_message-IsNamed message extra content hs ks =
      let header = add_children-IsNamed extra _ hs (
        add_child-IsNamed _ (new_element (qualified ns.soapenv "Header"))
          (understood-IsNamed ns.cwmp "ID" (get_id message))
          (prefixed-IsNamed ns.soapenv "Header")) in
      let rpc = add_children-IsNamed content _ ks (prefixed-IsNamed ns.cwmp (get_name message)) in
      let body =
        add_child-IsNamed _ (new_element (qualified ns.soapenv "Body")) rpc
          (prefixed-IsNamed ns.soapenv "Body") in
      let envelope = declare-IsNamed ns.cwmp _ (
        declare-IsNamed ns.xsi _ (
          declare-IsNamed ns.xsd _ (
            declare-IsNamed ns.soapenc _
              (declare-IsNamed ns.soapenv _ (prefixed-IsNamed ns.soapenv "Envelope"))))) in
      add_child-IsNamed _ _ body (add_child-IsNamed _ _ header envelope)

-- A message that passes the type assertion of a generator has a generator.
asserts-content :
    (name : String) (ns : Spaces) (message : Message)
    → asserts name message ≡ true
    → rpc_content ns message ≢ none
unfolding asserts rpc_content
asserts-content name ns message h none_left = ground arith

generated :
    (m : NamespaceMap) (message : Message) (content : List Element)
    → asserts (get_name message) message ≡ true
    → rpc_content (spaces_of m) message ≡ some content
    → generate m message
      ≡ some (generate_message (spaces_of m) message (header_extra (spaces_of m) message) content)
unfolding generate
generated m message content h e = rw (h, e) refl

encoded :
    (m : NamespaceMap) (message : Message) (doc : Element)
    → generate m message ≡ some doc
    → generate_tokens m message ≡ encode doc
unfolding generate_tokens
encoded m message doc h = rw (generate_tokens, h) refl

document-Writes :
    (m : NamespaceMap) (message : Message)
    → asserts (get_name message) message ≡ true
    → Writes (generate_tokens m message)
document-Writes m message h = elim (Option-cases (rpc_content (spaces_of m) message)) [
  | inl e ↦ absurd (asserts-content (get_name message) (spaces_of m) message h e)
  | inr (content, e) ↦
      let ns = spaces_of m in
      let doc = generate_message ns message (header_extra ns message) content in
      subst Writes (sym (encoded m message doc (generated m message content h e))) (
        encode-Writes doc (
          generate_message-IsNamed ns message (header_extra ns message) content
            (header_extra-IsNamed ns message)
            (subst ContentIsNamed e (rpc_content-IsNamed ns message))))
]

-- A message that passes the type assertion of the generator under its name can be written, whatever
-- the namespaces and the texts in it: the tokens that Serialize hands to the encoder are nested, each
-- end tag closing the element that was opened last.
pub generate_tokens-Writes :
    (m : NamespaceMap) (message : Message)
    → asserts (get_name message) message ≡ true
    → (ts : List Token) × (generate_tokens m message ≡ some ts) × Nests ts []
generate_tokens-Writes m message h =
    let (ts, same, balanced) = document-Writes m message h in
    (ts, same, subst (λ l. Nests l []) (append-nil ts) (balanced [] [] tt))
