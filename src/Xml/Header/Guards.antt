-- ===== src/Xml/Header/Guards.antt =====
-- What ParseCPEHeader never fills in.
use cwmp_acs_go.Prelude.{List, [], ◌∷◌, ◌≡◌, refl, arith}
use cwmp_acs_go.Cwmp.Structs.{CwmpHeader, header_of_id}
use cwmp_acs_go.Xml.Structs.{SoapElement, children}
use cwmp_acs_go.Xml.Header.{header_field, header_from, parse_cpe_header}

header_from-guards :
    (h : CwmpHeader) (es : List SoapElement)
    → ((header_from h es).use_cwmp_version ≡ h.use_cwmp_version)
      × ((header_from h es).hold_requests ≡ h.hold_requests)
unfolding header_from header_field
header_from-guards h [] = (refl, refl)
header_from-guards h (e ∷ es) = ground (arith, header_from-guards (header_field h e) es)

-- Whatever a header element holds, the header that is read from it has an empty UseCWMPVersion and
-- an empty HoldRequests.
pub parse_cpe_header-guards :
    (elem : SoapElement)
    → ((parse_cpe_header elem).use_cwmp_version ≡ "") × ((parse_cpe_header elem).hold_requests ≡ "")
unfolding parse_cpe_header
parse_cpe_header-guards elem = header_from-guards (header_of_id "") (children elem)
