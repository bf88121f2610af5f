-- ===== src/Lifecycle/Services/Acme/Steps.antt =====
-- service.go: the early returns of the ACME operations, as steps of a proof.
use ano_pki_community.Common.{◌≡◌, refl, Bool, true, false}
use ano_pki_community.Lifecycle.World.{World, Op}
use ano_pki_community.Lifecycle.World.Ensures.{Ensures}
use ano_pki_community.Lifecycle.Services.Acme.{unless}

pub Ensures-unless :
    (Q : Unit {0} → World → Type 0) (done : Bool) (f : Op (Unit {0})) (w : World)
    → Q tt w
    → (done ≡ false → Ensures Q (f w))
    → Ensures Q (unless done f w)
unfolding unless Ensures
Ensures-unless Q true f w q h = q
Ensures-unless Q false f w q h = h refl
