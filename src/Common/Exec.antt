-- ===== src/Common/Exec.antt =====
-- Calls that act on a shared world, as a monad: a reply (a value, a returned `error`, a run-time
-- panic) and the world after the call.
use mathlib.Core.Path.{◌≡◌, refl}
use mathlib.Core.Logic.{◌⊎◌, inl, inr}

-- The errors that the program tells apart: k8sErrors.IsNotFound, and any other.
pub data Error : Type 0 where
  not_found : Error
  failed : Error

pub data Reply {ℓ} (A : Type ℓ) : Type ℓ where
  ok : A → Reply A
  err : Error → Reply A
  panic : Reply A

module _ {A : Type 0} where
  -- A call whose error the caller looks at.
  abbrev pub caught : Reply A → Reply (Reply A)
  caught (ok a) = ok (ok a)
  caught (err e) = ok (err e)
  caught panic = panic

  -- A call whose reply is dropped.
  abbrev pub ignored : Reply A → Reply (Unit {0})
  ignored (ok a) = ok tt
  ignored (err e) = ok tt
  ignored panic = panic

  -- A reply behind a deferred call: of this call only a panic is seen.
  abbrev pub behind : Reply (Unit {0}) → Reply A → Reply A
  behind (ok _) r = r
  behind (err e) r = r
  behind panic r = panic

module _ {W : Type 0} where
  module _ {A B : Type 0} where
    abbrev pub and_then : Reply A → (A → W → Reply B × W) → W → Reply B × W
    and_then (ok a) f w = f a w
    and_then (err e) f w = (err e, w)
    and_then panic f w = (panic, w)

    infixl 5 ◌>>=◌ ◌>>◌
    abbrev pub ◌>>=◌ : (W → Reply A × W) → (A → W → Reply B × W) → W → Reply B × W
    ◌>>=◌ m f w = let (r, w') = m w in and_then r f w'

    abbrev pub ◌>>◌ : (W → Reply A × W) → (W → Reply B × W) → W → Reply B × W
    m >> k = m >>= λ _. k

  module _ {A : Type 0} where
    abbrev pub done : A → W → Reply A × W
    done a w = (ok a, w)

    abbrev pub raise : Error → W → Reply A × W
    raise e w = (err e, w)

    -- A request that reads the world.
    abbrev pub ask : (W → Reply A) → W → Reply A × W
    ask r w = (r w, w)

    abbrev pub reply : Reply A → W → Reply A × W
    reply r w = (r, w)

    abbrev pub attempt : (W → Reply A × W) → W → Reply (Reply A) × W
    attempt m w = let (r, w') = m w in (caught r, w')

    abbrev pub ignore : (W → Reply A × W) → W → Reply (Unit {0}) × W
    ignore m w = let (r, w') = m w in (ignored r, w')

pub Reply-cases {ℓ} :
    {A : Type ℓ} (r : Reply A)
    → ((a : A) × (r ≡ ok a)) ⊎ (((e : Error) × (r ≡ err e)) ⊎ (r ≡ panic))
Reply-cases (ok a) = inl (a, refl)
Reply-cases (err e) = inr (inl (e, refl))
Reply-cases panic = inr (inr refl)
