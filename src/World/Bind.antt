-- ===== src/World/Bind.antt =====
-- Taking apart a run that returned.
use open_content_decryption.Base.{◌≡◌, refl}
use open_content_decryption.Base.Outcome.{Outcome, ok, fault}
use open_content_decryption.World.{World, M, ◌>>=◌}

through :
    {A B : Type 0} (o : Outcome (A × World)) (f : A → M B) {b : B} {w' : World}
    → let after : Outcome (B × World) = elim o [ fault e ↦ fault e | ok (a, w1) ↦ f a w1 ] in
      after ≡ ok (b, w') → (a : A) × (w1 : World) × (o ≡ ok (a, w1)) × (f a w1 ≡ ok (b, w'))
through (ok (a, w1)) f h = (a, w1, refl, h)
through (fault e) f h = cc

-- A sequence returns only where both its parts do.
pub >>=-eq-ok :
    {A B : Type 0} (m : M A) (f : A → M B) (w : World) {b : B} {w' : World}
    → (m >>= f) w ≡ ok (b, w')
    → (a : A) × (w1 : World) × (m w ≡ ok (a, w1)) × (f a w1 ≡ ok (b, w'))
>>=-eq-ok m f w h = through (m w) f h
