-- ===== src/Xml/Namespaces/Declared.antt =====
-- Which namespaces BuildNamespaceMap finds.
use cwmp_acs_go.Prelude.{
  String, Option, none, some, List, [], ◌∷◌, ◌≡◌, ◌≢◌, ◌⊎◌, inl, inr, refl, sym, ap, ◌∙◌, ◌↔◌, In,
}
use cwmp_acs_go.Go.Runtime.{Runtime}
use cwmp_acs_go.Xml.Structs.{NamespaceId, soapenv, soapenc, xsi, xsd, cwmp, Namespace}
use cwmp_acs_go.Xml.Namespaces.{
  NamespaceMap, no_namespaces, get, put, put_found, id_of_url, build_from, build_namespace_map,
}

-- A namespace that an entry of the list declares, and whose URL is one that the table maps to `id`.
abbrev pub IsDeclared : NamespaceId → Namespace → List (String × String) → Type 0
IsDeclared id n entries = In (n.prefix, n.url) entries × (id_of_url n.url ≡ some id)

some-injective : {A : Type 0} {a b : A} → some a ≡ some b → a ≡ b
some-injective h = cc

get-put_same : (m : NamespaceMap) (id : NamespaceId) (n : Namespace) → get (put m id n) id ≡ some n
get-put_same m soapenv n = refl
get-put_same m soapenc n = refl
get-put_same m xsi n = refl
get-put_same m xsd n = refl
get-put_same m cwmp n = refl

get-put :
    (m : NamespaceMap) (i j : NamespaceId) (n : Namespace) → (i ≡ j) ⊎ (get (put m i n) j ≡ get m j)
get-put m soapenv soapenv n = inl refl
get-put m soapenc soapenc n = inl refl
get-put m xsi xsi n = inl refl
get-put m xsd xsd n = inl refl
get-put m cwmp cwmp n = inl refl
get-put m _ _ n = inr refl

-- One entry: what the map holds afterwards under `id` it held before, or is the entry.
put_found-get :
    (m : NamespaceMap) (o : Option NamespaceId) (id : NamespaceId) (e n : Namespace)
    → get (put_found o e m) id ≡ some n
    → (get m id ≡ some n) ⊎ ((o ≡ some id) × (e ≡ n))
put_found-get m none id e n h = inl h
put_found-get m (some i) id e n h = elim (get-put m i id e) [
  | inl same ↦
      let k : get (put m i e) i ≡ some n = rw (sym same) at h in
      inr (ap some same, some-injective (sym (get-put_same m i e) ∙ k))
  | inr before ↦ inl (sym before ∙ h)
]

put_found-keeps :
    (m : NamespaceMap) (o : Option NamespaceId) (id : NamespaceId) (e : Namespace)
    → get m id ≢ none
    → get (put_found o e m) id ≢ none
put_found-keeps m none id e h = h
put_found-keeps m (some i) id e h = elim (get-put m i id e) [
  | inl same ↦ rw (sym same, get-put_same m i e) (λ k. cc)
  | inr before ↦ rw before h
]

-- The map after one more entry.
abbrev with_entry : String → String → NamespaceMap → NamespaceMap
with_entry prefix url m = put_found (id_of_url url) (record { prefix = prefix; url = url }) m

build_from-keeps :
    (m : NamespaceMap) (id : NamespaceId) (entries : List (String × String))
    → get m id ≢ none
    → get (build_from m entries) id ≢ none
unfolding build_from
build_from-keeps m id [] h = h
build_from-keeps m id ((prefix, url) ∷ entries) h =
    build_from-keeps (with_entry prefix url m) id entries
      (put_found-keeps m (id_of_url url) id (record { prefix = prefix; url = url }) h)

build_from-get :
    (m : NamespaceMap) (id : NamespaceId) (n : Namespace) (entries : List (String × String))
    → get (build_from m entries) id ≡ some n
    → (get m id ≡ some n) ⊎ IsDeclared id n entries
unfolding build_from
build_from-get m id n [] h = inl h
build_from-get m id n ((prefix, url) ∷ entries) h =
    elim (build_from-get (with_entry prefix url m) id n entries h) [
      | inr (later, names) ↦ inr (inr later, names)
      | inl now ↦ elim (put_found-get m (id_of_url url) id _ n now) [
        | inl before ↦ inl before
        | inr (names, is_n) ↦
            inr (inl (ap (λ (x : Namespace). (x.prefix, x.url)) is_n), rw (sym is_n) names)
      ]
    ]

build_from_complete :
    (m : NamespaceMap) (id : NamespaceId) (n : Namespace) (entries : List (String × String))
    → IsDeclared id n entries
    → get (build_from m entries) id ≢ none
unfolding build_from
build_from_complete m id n [] (h, names) = absurd h
build_from_complete m id n ((prefix, url) ∷ entries) (inr later, names) =
    build_from_complete (with_entry prefix url m) id n entries (later, names)
build_from_complete m id n ((prefix, url) ∷ entries) (inl here, names) =
    let same : url ≡ n.url = ap (λ (x : String × String). x.1) here in
    build_from-keeps (with_entry prefix url m) id entries
      (rw (same, names, get-put_same m id _) (λ k. cc))

get-no_namespaces : (id : NamespaceId) (n : Namespace) → get no_namespaces id ≢ some n
get-no_namespaces soapenv n h = cc
get-no_namespaces soapenc n h = cc
get-no_namespaces xsi n h = cc
get-no_namespaces xsd n h = cc
get-no_namespaces cwmp n h = cc

-- The map that is built from the entries holds under each id a namespace that they declare for it, and
-- holds one under every id for which they declare one.
pub record FindsDeclared (entries : List (String × String)) (m : NamespaceMap) : Type 0 where
  pub found : (id : NamespaceId) (n : Namespace) → get m id ≡ some n → IsDeclared id n entries
  pub complete : (id : NamespaceId) (n : Namespace) → IsDeclared id n entries → get m id ≢ none

-- Whatever the order in which Go's range visits the entries, if it visits exactly these, the map that
-- BuildNamespaceMap returns holds under each id a namespace that the entries declare for it, and holds
-- one under every id for which they declare one.
pub build_namespace_map-FindsDeclared :
    (go : Runtime) (entries : List (String × String))
    → ((e : String × String) → In e (go.range_namespaces entries) ↔ In e entries)
    → FindsDeclared entries (build_namespace_map go entries)
unfolding build_namespace_map
build_namespace_map-FindsDeclared go entries visits = record {
  found = λ id n h. elim (build_from-get no_namespaces id n (go.range_namespaces entries) h) [
    | inl never ↦ absurd (get-no_namespaces id n never)
    | inr (at, names) ↦ ((visits (n.prefix, n.url)).0 at, names)
  ];
  complete = λ id n (at, names).
      build_from_complete no_namespaces id n (go.range_namespaces entries)
        ((visits (n.prefix, n.url)).1 at, names);
}
