-- ===== src/Xml/Envelope/RoundTrip.antt =====
-- ParseSOAPEnvelope reads back the tree of which it is given the tokens.
use text.Mathlib.TextLemmas
use cwmp_acs_go.Prelude.{
  String, false, none, some, List, [], ◌∷◌, ◌++◌, ◌≡◌, refl, sym, ap, ◌∙◌, arith, eq_iff, ◌==◌,
  append-nil, append_assoc, Bool-cases, inl, inr,
}
use cwmp_acs_go.Go.Text.{trim_space}
use cwmp_acs_go.Xml.Structs.{
  Name, Attr, SoapElement, Elements, element, nil, cons, to_list, of_list-to_list, soapenv_ns_url,
}
use cwmp_acs_go.Xml.Namespaces.{collect_namespaces}
use cwmp_acs_go.Xml.Envelope.{
  Token, start, end, ok, Frame, open_frame, close, add, absent, building, built, is_soap, write,
  pop, Parser, step, run, start_element, start_inside, finish, section_of, parse_soap_envelope,
}

-- The tokens of an element, in front of those that follow it.
unfoldable mutual
  pub tokens : SoapElement → List Token → List Token
  tokens (element n ats t cs) rest = start n ats ∷ Token.text t ∷ tokens_all cs (end ∷ rest)

  pub tokens_all : Elements → List Token → List Token
  tokens_all nil rest = rest
  tokens_all (cons e es) rest = tokens e (tokens_all es rest)

-- No element is called Header or Body in SOAP's namespace, and every text is trimmed.
abbrev pub IsPlainName : Name → Type 0
IsPlainName n = (is_soap n "Header" ≡ false) × (is_soap n "Body" ≡ false)

abbrev mutual
  pub IsClean : SoapElement → Type 0
  IsClean (element n ats t cs) = IsPlainName n × (trim_space t ≡ t) × AllClean cs

  pub AllClean : Elements → Type 0
  AllClean nil = Unit {0}
  AllClean (cons e es) = IsClean e × AllClean es

-- The text that a fresh frame gets from a trimmed token.
abbrev holding : Name → List Attr → String → List SoapElement → Frame
holding n ats t cs = record { name = n; attrs = ats; text = t; children = cs }

abbrev add_all : Frame → List SoapElement → Frame
add_all f es = record f { children = f.children ++ es }

-- A place of the parser where an element is being read: what the three kinds of token do there.
record IsReading (at : Frame → List Frame → Parser) : Type 0 where
  starts :
      (n : Name) (ats : List Attr) (f : Frame) (fs : List Frame)
      → IsPlainName n
      → step (at f fs) (start n ats) ≡ ok (at (open_frame n ats) (f ∷ fs))
  texts :
      (n : Name) (ats : List Attr) (t : String) (fs : List Frame)
      → trim_space t ≡ t
      → step (at (open_frame n ats) fs) (Token.text t) ≡ ok (at (holding n ats t []) fs)
  ends : (f g : Frame) (fs : List Frame) → step (at f (g ∷ fs)) end ≡ ok (at (add (close f) g) fs)

module _ (at : Frame → List Frame → Parser) (reading : IsReading at) where
  mutual
    unfolding tokens run

    read-tokens :
        (e : SoapElement) (f : Frame) (fs : List Frame) (rest : List Token)
        → IsClean e
        → run (at f fs) (tokens e rest) ≡ run (at (add e f) fs) rest
    read-tokens (element n ats t cs) f fs rest (plain, trimmed, clean) =
        rw (reading.starts n ats f fs plain, reading.texts n ats t (f ∷ fs) trimmed)
          (read-tokens_all cs (holding n ats t []) (f ∷ fs) (end ∷ rest) clean
            ∙ rw (reading.ends (holding n ats t (to_list cs)) f fs)
                (ap (λ es. run (at (add (element n ats t es) f) fs) rest) (of_list-to_list cs)))

    read-tokens_all :
        (es : Elements) (f : Frame) (fs : List Frame) (rest : List Token)
        → AllClean es
        → run (at f fs) (tokens_all es rest) ≡ run (at (add_all f (to_list es)) fs) rest
    read-tokens_all nil f fs rest clean = rw append-nil
    read-tokens_all (cons e es) f fs rest (clean, cleans) =
        read-tokens e f fs (tokens_all es rest) clean
        ∙ read-tokens_all es (add e f) fs rest cleans
        ∙ rw append_assoc

abbrev pub soap_name : String → Name
soap_name tag = record { space = soapenv_ns_url; local = tag }

abbrev Seen : Type 0
Seen = Name × List Attr

abbrev at_header : Seen → List (String × String) → Frame → List Frame → Parser
at_header seen ns f fs = record {
  envelope = some seen;
  namespaces = ns;
  header = building f fs;
  body = absent;
}

abbrev at_body : Seen → List (String × String) → SoapElement → Frame → List Frame → Parser
at_body seen ns h f fs = record {
  envelope = some seen;
  namespaces = ns;
  header = built h;
  body = building f fs;
}

write-fresh :
    (n : Name) (ats : List Attr) (t : String) (fs : List Frame)
    → trim_space t ≡ t
    → write t (building (open_frame n ats) fs) ≡ building (holding n ats t []) fs
unfolding write
write-fresh n ats t fs trimmed = rw trimmed (elim (Bool-cases (t == "")) [
  | inl e ↦ rw e (ap (λ x. building (holding n ats x []) fs) (sym ((eq_iff t "").0 e)))
  | inr e ↦ rw e (ap (λ x. building (holding n ats x []) fs) (TextLemmas.nil-append t))
])

at_header-IsReading : (seen : Seen) (ns : List (String × String)) → IsReading (at_header seen ns)
unfolding step start_element start_inside pop
at_header-IsReading seen ns = record {
  starts = λ n ats f fs plain. ground (arith, plain.0);
  texts = λ n ats t fs trimmed.
      ap
        (λ s.
          ok (record (at_header seen ns (open_frame n ats) fs) {
            header = s;
            body = write t absent;
          }))
        (write-fresh n ats t fs trimmed)
      ∙ (unfold write in refl);
  ends = λ f g fs. refl;
}

at_body-IsReading :
    (seen : Seen) (ns : List (String × String)) (h : SoapElement) → IsReading (at_body seen ns h)
unfolding step start_element start_inside pop
at_body-IsReading seen ns h = record {
  starts = λ n ats f fs plain. ground (arith, plain.0, plain.1);
  texts = λ n ats t fs trimmed.
      ap
        (λ s. ok (record (at_body seen ns h (open_frame n ats) fs) {
          header = write t (built h);
          body = s;
        }))
        (write-fresh n ats t fs trimmed)
      ∙ (unfold write in refl);
  ends = λ f g fs. refl;
}

-- The tokens of an envelope with one header and one body.
abbrev pub envelope_tokens : List Attr → List Attr → Elements → List Attr → Elements → List Token
envelope_tokens envelope_attrs header_attrs header_children body_attrs body_children =
    start (soap_name "Envelope") envelope_attrs
    ∷ start (soap_name "Header") header_attrs
    ∷ tokens_all header_children
        (end ∷ start (soap_name "Body") body_attrs ∷ tokens_all body_children (end ∷ end ∷ []))

run-header :
    (seen : Seen) (ns : List (String × String)) (ats : List Attr) (cs : Elements)
    (rest : List Token)
    → AllClean cs
    → run (at_header seen ns (open_frame (soap_name "Header") ats) []) (tokens_all cs (end ∷ rest))
      ≡ run
          (record {
            envelope = some seen;
            namespaces = ns;
            header = built (element (soap_name "Header") ats "" cs);
            body = absent;
          })
          rest
unfolding run step pop
run-header seen ns ats cs rest clean =
    read-tokens_all (at_header seen ns) (at_header-IsReading seen ns) cs
      (open_frame (soap_name "Header") ats) [] (end ∷ rest) clean
    ∙ rw (of_list-to_list cs)

run-body :
    (seen : Seen) (ns : List (String × String)) (h : SoapElement) (ats : List Attr) (cs : Elements)
    (rest : List Token)
    → AllClean cs
    → run (at_body seen ns h (open_frame (soap_name "Body") ats) []) (tokens_all cs (end ∷ rest))
      ≡ run
          (record {
            envelope = some seen;
            namespaces = ns;
            header = built h;
            body = built (element (soap_name "Body") ats "" cs);
          })
          rest
unfolding run step pop
run-body seen ns h ats cs rest clean =
    read-tokens_all (at_body seen ns h) (at_body-IsReading seen ns h) cs
      (open_frame (soap_name "Body") ats) [] (end ∷ rest) clean
    ∙ rw (of_list-to_list cs)

-- From the tokens of an envelope with one Header and one Body, both with any trees of elements inside
-- that are not themselves SOAP Headers or Bodies and whose texts are trimmed, ParseSOAPEnvelope
-- returns these two trees, and the namespaces that the envelope's attributes declare.
pub parse_soap_envelope-tokens :
    (envelope_attrs header_attrs : List Attr) (header_children : Elements) (body_attrs : List Attr)
    (body_children : Elements)
    → AllClean header_children
    → AllClean body_children
    → parse_soap_envelope (record {
      tokens = envelope_tokens envelope_attrs header_attrs header_children body_attrs body_children;
      failure = none;
    })
      ≡ ok (record {
        envelope = (soap_name "Envelope", envelope_attrs);
        header = element (soap_name "Header") header_attrs "" header_children;
        body = element (soap_name "Body") body_attrs "" body_children;
        namespaces = collect_namespaces envelope_attrs [];
      })
unfolding parse_soap_envelope run step start_element start_inside pop finish section_of
parse_soap_envelope-tokens ea ha hs ba bs clean_h clean_b =
    let seen : Seen = (soap_name "Envelope", ea) in
    let ns = collect_namespaces ea [] in
    let h = element (soap_name "Header") ha "" hs in
    rw
      (run-header seen ns ha hs (start (soap_name "Body") ba ∷ tokens_all bs (end ∷ end ∷ []))
        clean_h)
      (rw (run-body seen ns h ba bs (end ∷ []) clean_b))
