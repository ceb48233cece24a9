-- ===== src/Xml/Header.antt =====
-- ParseCPEHeader of internal/xml/parser.go. Its namespace argument is not read.
pub mod Guards
use cwmp_acs_go.Prelude.{List, [], ◌∷◌, ◌==◌, if◌then◌else◌}
use cwmp_acs_go.Cwmp.Structs.{CwmpHeader, header_of_id}
use cwmp_acs_go.Xml.Structs.{SoapElement, local, text, children}

unfoldable pub header_field : CwmpHeader → SoapElement → CwmpHeader
header_field h e =
    if local e == "ID"
    then record h { id = text e }
    else if local e == "SessionTimeout"
    then record h { session_timeout = text e }
    else if local e == "SupportedCWMPVersions"
    then record h { supported_cwmp_versions = text e }
    else h

unfoldable pub header_from : CwmpHeader → List SoapElement → CwmpHeader
unfolding header_field
header_from h [] = h
header_from h (e ∷ es) = header_from (header_field h e) es

unfoldable pub parse_cpe_header : SoapElement → CwmpHeader
unfolding header_from
parse_cpe_header elem = header_from (header_of_id "") (children elem)
