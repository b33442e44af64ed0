-- ===== src/Base/Result.antt =====
-- Results of C code that returns an `esp_err_t` beside the state it has changed.
use mathlib.Core.Path.{◌≡◌, refl}
use mathlib.Core.Option.{Option, none, some}

-- The `esp_err_t` values the modelled code returns, ESP_OK apart.
pub data EspErr : Type 0 where
  esp_fail invalid_arg invalid_size invalid_state invalid_response no_mem not_supported timeout :
      EspErr

-- `done` is ESP_OK and `failed` an error, each with the state reached. `fault` is a read or write
-- outside an array, which C leaves undefined.
pub data Outcome {ℓ} (S : Type ℓ) : Type ℓ where
  done : S → Outcome S
  failed : EspErr → S → Outcome S
  fault : Outcome S

infixl 5 ◌>>=◌
abbrev pub ◌>>=◌ {ℓ} : {S : Type ℓ} → Outcome S → (S → Outcome S) → Outcome S
done s >>= f = f s
failed e s >>= f = failed e s
fault >>= f = fault

-- A read from an array: out of range it is a fault.
abbrev pub at {ℓ κ} : {A : Type ℓ} {S : Type κ} → Option A → (A → Outcome S) → Outcome S
at none f = fault
at (some x) f = f x

pub >>=_done {ℓ} : {S : Type ℓ} (m : Outcome S) → (m >>= done) ≡ m
>>=_done (done s) = refl
>>=_done (failed e s) = refl
>>=_done fault = refl
