-- ===== src/Xml/Dom.antt =====
-- internal/xml/dom/dom.go. A pointer to an element that has been added to its parent is not kept:
-- what the program adds through it is added before it is handed to its parent.
pub mod Written
use cwmp_acs_go.Prelude.{String, Option, none, some, List, [], ◌∷◌, ◌++◌, ◌==◌, if◌then◌else◌}

pub record Attribute : Type 0 where
  pub name : String
  pub value : String

mutual
  pub data Element : Type 0 where
    element : String → List Attribute → String → Elements → Element

  pub data Elements : Type 0 where
    nil : Elements
    cons : Element → Elements → Elements

abbrev pub of_list : List Element → Elements
of_list [] = nil
of_list (e ∷ es) = cons e (of_list es)

abbrev pub snoc : Elements → Element → Elements
snoc nil e = cons e nil
snoc (cons d ds) e = cons d (snoc ds e)

unfoldable pub new_element : String → Element
new_element name = element name [] "" nil

unfoldable pub add_attr : String → String → Element → Element
add_attr name value (element n attrs t cs) =
    element n (attrs ++ (record { name = name; value = value }) ∷ []) t cs

unfoldable pub set_text : String → Element → Element
set_text text (element n attrs t cs) = element n attrs text cs

-- The parent, with the child appended.
unfoldable pub add_child : Element → Element → Element
add_child child (element n attrs t cs) = element n attrs t (snoc cs child)

unfoldable pub add_children : List Element → Element → Element
unfolding add_child
add_children [] parent = parent
add_children (e ∷ es) parent = add_children es (add_child e parent)

-- The calls of EncodeToken; the text that the encoder makes of them is not modelled.
pub data Token : Type 0 where
  start : String → List Attribute → Token
  text : String → Token
  end : String → Token

infixl 5 ◌>>=◌
abbrev pub ◌>>=◌ : {A B : Type 0} → Option A → (A → Option B) → Option B
none >>= f = none
some a >>= f = f a

abbrev pub text_token : String → List Token
text_token t = if t == "" then [] else text t ∷ []

-- `none` is the encoder's error: a start tag with no name.
unfoldable mutual
  pub encode : Element → Option (List Token)
  encode (element name attrs t cs) = do
    inner ← encode_all cs
    if name == ""
        then none
        else some (start name attrs ∷ (text_token t ++ (inner ++ end name ∷ [])))

  pub encode_all : Elements → Option (List Token)
  encode_all nil = some []
  encode_all (cons e es) = do first ← encode e; rest ← encode_all es; some (first ++ rest)

-- Serialize, up to the tokens that the encoder is handed.
abbrev pub serialize : Element → Option (List Token)
serialize root = encode root
