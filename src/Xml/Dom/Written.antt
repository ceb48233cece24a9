-- ===== src/Xml/Dom/Written.antt =====
-- Which trees the DOM writer can write, and that what it writes is nested.
use cwmp_acs_go.Prelude.{
  String, false, Option, some, List, [], ◌∷◌, ◌++◌, ◌≡◌, ◌≢◌, refl, sym, subst, arith, eq_iff, ◌==◌,
  inl, inr, Bool-cases, All, append_assoc,
}
use cwmp_acs_go.Xml.Dom.{
  Attribute, Element, element, Elements, nil, cons, snoc, new_element, add_attr, set_text,
  add_child, add_children, Token, start, text, end, text_token, encode, encode_all,
}

-- Every element of a tree has a name.
unfoldable mutual
  pub IsNamed : Element → Type 0
  IsNamed (element name attrs t cs) = (name ≢ "") × AreNamed cs

  pub AreNamed : Elements → Type 0
  AreNamed nil = Unit {0}
  AreNamed (cons e es) = IsNamed e × AreNamed es

-- Inside the open elements of the stack, the tokens close each element that is open, in turn, and each
-- that they open themselves.
abbrev pub Nests : List Token → List String → Type 0
Nests [] [] = Unit {0}
Nests [] (name ∷ stack) = ⊥
Nests (start name attrs ∷ ts) stack = Nests ts (name ∷ stack)
Nests (text t ∷ ts) stack = Nests ts stack
Nests (end name ∷ ts) [] = ⊥
Nests (end name ∷ ts) (top ∷ stack) = (top ≡ name) × Nests ts stack

-- Tokens that leave the stack as it is.
abbrev pub IsBalanced : List Token → Type 0
IsBalanced ts =
    (rest : List Token) (stack : List String) → Nests rest stack → Nests (ts ++ rest) stack

abbrev pub Writes : Option (List Token) → Type 0
Writes o = (ts : List Token) × (o ≡ some ts) × IsBalanced ts

IsBalanced-append : (ts us : List Token) → IsBalanced ts → IsBalanced us → IsBalanced (ts ++ us)
IsBalanced-append ts us h k rest stack n =
    subst (λ l. Nests l stack) (sym (append_assoc ts us rest))
      (h (us ++ rest) stack (k rest stack n))

text_token-IsBalanced : (t : String) → IsBalanced (text_token t)
text_token-IsBalanced t rest stack n = elim (Bool-cases (t == "")) [
  | inl e ↦ rw e n
  | inr m ↦ rw m n
]

enclosed-IsBalanced :
    (name : String) (attrs : List Attribute) (ts : List Token)
    → IsBalanced ts
    → IsBalanced (start name attrs ∷ (ts ++ end name ∷ []))
enclosed-IsBalanced name attrs ts h rest stack n =
    subst (λ l. Nests l (name ∷ stack)) (sym (append_assoc ts (end name ∷ []) rest))
      (h (end name ∷ rest) (name ∷ stack) (refl, n))

mutual
  unfolding IsNamed AreNamed encode encode_all

  pub encode-Writes : (e : Element) → IsNamed e → Writes (encode e)
  encode-Writes (element name attrs t cs) (named, below) =
      let (inner, same, balanced) = encode_all-Writes cs below in
      let unnamed : (name == "") ≡ false = ground (arith, eq_iff name "", named) in
      (
        start name attrs ∷ (text_token t ++ (inner ++ end name ∷ [])),
        rw (same, unnamed) refl,
        subst (λ l. IsBalanced (start name attrs ∷ l))
            (append_assoc (text_token t) inner (end name ∷ []))
            (enclosed-IsBalanced name attrs (text_token t ++ inner)
              (IsBalanced-append (text_token t) inner (text_token-IsBalanced t) balanced)),
      )

  encode_all-Writes : (es : Elements) → AreNamed es → Writes (encode_all es)
  encode_all-Writes nil h = ([], refl, λ rest stack n. n)
  encode_all-Writes (cons e es) (h, hs) =
      let (first, same, balanced) = encode-Writes e h in
      let (rest, same', balanced') = encode_all-Writes es hs in
      (first ++ rest, rw (same, same') refl, IsBalanced-append first rest balanced balanced')

-- What the builders make of named trees is named.
AreNamed-snoc : (es : Elements) (e : Element) → AreNamed es → IsNamed e → AreNamed (snoc es e)
unfolding AreNamed
AreNamed-snoc nil e hs h = (h, tt)
AreNamed-snoc (cons d ds) e (k, hs) h = (k, AreNamed-snoc ds e hs h)

pub new_element-IsNamed : (name : String) → name ≢ "" → IsNamed (new_element name)
unfolding IsNamed new_element
new_element-IsNamed name h = (h, tt)

pub add_attr-IsNamed :
    (name value : String) (e : Element) → IsNamed e → IsNamed (add_attr name value e)
unfolding IsNamed add_attr
add_attr-IsNamed name value (element n attrs t cs) h = h

pub set_text-IsNamed : (t : String) (e : Element) → IsNamed e → IsNamed (set_text t e)
unfolding IsNamed set_text
set_text-IsNamed t (element n attrs old cs) h = h

pub add_child-IsNamed :
    (child e : Element) → IsNamed child → IsNamed e → IsNamed (add_child child e)
unfolding IsNamed add_child
add_child-IsNamed child (element n attrs t cs) h (named, below) =
    (named, AreNamed-snoc cs child below h)

pub add_children-IsNamed :
    (es : List Element) (e : Element) → All IsNamed es → IsNamed e → IsNamed (add_children es e)
unfolding add_children
add_children-IsNamed [] e hs h = h
add_children-IsNamed (d ∷ ds) e (k, hs) h =
    add_children-IsNamed ds (add_child d e) hs (add_child-IsNamed d e k h)
