-- ===== src/Parsers/Loops/Laws.antt =====
-- The invariant rule of the loops over children.
use cwmp_acs_go.Prelude.{List, [], ◌∷◌, ◌≡◌, subst}
use cwmp_acs_go.Cwmp.Errors.{Result, ok, >>=-eq-ok, ok-injective}
use cwmp_acs_go.Xml.Structs.{SoapElement}
use cwmp_acs_go.Parsers.Loops.{for_each}

-- What every round that does not fail keeps, the loop keeps.
pub for_each_inv {ℓ κ} :
    {S : Type ℓ} (P : S → Type κ) (body : SoapElement → S → Result S)
    → ((e : SoapElement) (s t : S) → P s → body e s ≡ ok t → P t)
    → (es : List SoapElement) (s t : S) → P s
    → for_each body es s ≡ ok t
    → P t
unfolding for_each
for_each_inv P body keep [] s t p h = subst P (ok-injective h) p
for_each_inv P body keep (e ∷ es) s t p h =
    let (u, first, rest) = >>=-eq-ok (body e s) (λ x. for_each body es x) h in
    for_each_inv P body keep es u t (keep e s u p first) rest
