-- ===== src/Xml/Structs.antt =====
-- internal/xml/structs.go: elements, namespaces.
use cwmp_acs_go.Prelude.{String, List, [], ◌∷◌, ◌≡◌, refl, ap}

-- xml.Name of encoding/xml: the namespace (or the prefix `xmlns`) and the local name.
pub record Name : Type 0 where
  pub space : String
  pub local : String

pub record Attr : Type 0 where
  pub name : Name
  pub value : String

mutual
  pub data SoapElement : Type 0 where
    element : Name → List Attr → String → Elements → SoapElement

  -- The slice `[]SOAPElement`.
  pub data Elements : Type 0 where
    nil : Elements
    cons : SoapElement → Elements → Elements

abbrev pub to_list : Elements → List SoapElement
to_list nil = []
to_list (cons e es) = e ∷ to_list es

abbrev pub of_list : List SoapElement → Elements
of_list [] = nil
of_list (e ∷ es) = cons e (of_list es)

pub to_list-of_list : (es : List SoapElement) → to_list (of_list es) ≡ es
to_list-of_list [] = refl
to_list-of_list (e ∷ es) = ap (◌∷◌ e) (to_list-of_list es)

pub of_list-to_list : (es : Elements) → of_list (to_list es) ≡ es
of_list-to_list nil = refl
of_list-to_list (cons e es) = ap (cons e) (of_list-to_list es)

abbrev pub name_of : SoapElement → Name
name_of (element n ats t cs) = n

abbrev pub local : SoapElement → String
local e = (name_of e).local

abbrev pub attrs : SoapElement → List Attr
attrs (element n ats t cs) = ats

abbrev pub text : SoapElement → String
text (element n ats t cs) = t

abbrev pub children : SoapElement → List SoapElement
children (element n ats t cs) = to_list cs

pub data NamespaceId : Type 0 where
  soapenv soapenc xsi xsd cwmp : NamespaceId

pub record Namespace : Type 0 where
  pub prefix : String
  pub url : String

abbrev pub soapenv_ns_url : String
soapenv_ns_url = "http://schemas.xmlsoap.org/soap/envelope/"

abbrev pub soapenc_ns_url : String
soapenc_ns_url = "http://schemas.xmlsoap.org/soap/encoding/"

abbrev pub xsi_ns_url : String
xsi_ns_url = "http://www.w3.org/2001/XMLSchema-instance"

abbrev pub xsd_ns_url : String
xsd_ns_url = "http://www.w3.org/2001/XMLSchema"

abbrev pub cwmp_1_0_ns_url : String
cwmp_1_0_ns_url = "urn:dslforum-org:cwmp-1-0"

abbrev pub cwmp_1_1_ns_url : String
cwmp_1_1_ns_url = "urn:dslforum-org:cwmp-1-1"

abbrev pub cwmp_1_2_ns_url : String
cwmp_1_2_ns_url = "urn:dslforum-org:cwmp-1-2"
