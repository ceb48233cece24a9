-- ===== src/Xml/Namespaces.antt =====
-- collectNamespaces and BuildNamespaceMap of internal/xml/parser.go. A Go map is the list of
-- its entries in the order in which they were added; a `range` over it visits them in the order that
-- the runtime chooses.
pub mod Declared
use cwmp_acs_go.Prelude.{String, ◌&&◌, ◌||◌, Option, none, some, List, [], ◌∷◌, ◌==◌, if◌then◌else◌}
use cwmp_acs_go.Go.Runtime.{Runtime}
use cwmp_acs_go.Xml.Structs.{
  Attr, NamespaceId, soapenv, soapenc, xsi, xsd, cwmp, Namespace, soapenv_ns_url, soapenc_ns_url,
  xsi_ns_url, xsd_ns_url, cwmp_1_0_ns_url, cwmp_1_1_ns_url, cwmp_1_2_ns_url,
}

-- `out[prefix] = url`
unfoldable pub insert : String → String → List (String × String) → List (String × String)
insert prefix url [] = (prefix, url) ∷ []
insert prefix url ((p, u) ∷ out) =
    let rest = insert prefix url out in if p == prefix then (prefix, url) ∷ out else (p, u) ∷ rest

unfoldable pub collect_namespaces : List Attr → List (String × String) → List (String × String)
unfolding insert
collect_namespaces [] out = out
collect_namespaces (a ∷ attrs) out = collect_namespaces attrs (
    if a.name.space == "xmlns"
    then insert a.name.local a.value out
    else if a.name.space == "" && a.name.local == "xmlns"
    then insert "" a.value out
    else out)

-- namespaceUrlToIDMap
unfoldable pub id_of_url : String → Option NamespaceId
id_of_url url =
    if url == soapenv_ns_url
    then some soapenv
    else if url == soapenc_ns_url
    then some soapenc
    else if url == xsi_ns_url
    then some xsi
    else if url == xsd_ns_url
    then some xsd
    else if url == cwmp_1_0_ns_url || url == cwmp_1_1_ns_url || url == cwmp_1_2_ns_url
    then some cwmp
    else none

-- `map[NamespaceID]Namespace`
pub record NamespaceMap : Type 0 where
  pub soapenv : Option Namespace
  pub soapenc : Option Namespace
  pub xsi : Option Namespace
  pub xsd : Option Namespace
  pub cwmp : Option Namespace

abbrev pub no_namespaces : NamespaceMap
no_namespaces = record { soapenv = none; soapenc = none; xsi = none; xsd = none; cwmp = none }

abbrev pub get : NamespaceMap → NamespaceId → Option Namespace
get m soapenv = m.soapenv
get m soapenc = m.soapenc
get m xsi = m.xsi
get m xsd = m.xsd
get m cwmp = m.cwmp

abbrev pub put : NamespaceMap → NamespaceId → Namespace → NamespaceMap
put m soapenv n = record m { soapenv = some n }
put m soapenc n = record m { soapenc = some n }
put m xsi n = record m { xsi = some n }
put m xsd n = record m { xsd = some n }
put m cwmp n = record m { cwmp = some n }

-- Reading a missing key gives the zero value.
abbrev pub or_zero : Option Namespace → Namespace
or_zero none = record { prefix = ""; url = "" }
or_zero (some n) = n

abbrev pub put_found : Option NamespaceId → Namespace → NamespaceMap → NamespaceMap
put_found none n m = m
put_found (some id) n m = put m id n

unfoldable pub build_from : NamespaceMap → List (String × String) → NamespaceMap
unfolding id_of_url
build_from m [] = m
build_from m ((prefix, url) ∷ entries) =
    build_from (put_found (id_of_url url) (record { prefix = prefix; url = url }) m) entries

unfoldable pub build_namespace_map : Runtime → List (String × String) → NamespaceMap
unfolding build_from
build_namespace_map go namespaces = build_from no_namespaces (go.range_namespaces namespaces)
