-- ===== src/Prelude/Errors.antt =====
-- Python's exceptions as values: a call that returns is `ok`, one that raises is `raised`.
use mathlib.Core.Path.{◌≡◌, refl}
use mathlib.Core.Logic.{◌≢◌, ◌⊎◌, inl, inr, ◌↔◌}
use mathlib.Core.List.{List, [], ◌∷◌}
use nasdaq_protocols.Prelude.Lists.{All}

-- The exception classes that the sources raise, or let pass from what they call.
pub data Error : Type 0 where
  -- the package's own: soup/core.py, common/types.py, common/message/structures.py
  invalid_soup_message state_error end_of_queue duplicate_message : Error
  -- the interpreter's
  struct_error unicode_error value_error type_error index_error key_error overflow_error
        attribute_error not_implemented :
      Error
  -- ConnectionRefusedError, and what a callback of the application raises
  connection_refused callback_error : Error
  -- RecursionError
  recursion_error : Error
  -- the fuel of a loop ran out, which no call of the model does: see the theorems on termination
  out_of_fuel : Error

pub data Result {ℓ} (V : Type ℓ) : Type ℓ where
  raised : Error → Result V
  ok : V → Result V

-- To split on a computed call and keep the equation.
pub Result-cases {ℓ} :
    {V : Type ℓ} (call : Result V) → ((v : V) × (call ≡ ok v)) ⊎ ((e : Error) × (call ≡ raised e))
Result-cases (raised e) = inr (e, refl)
Result-cases (ok v) = inl (v, refl)

-- What follows a call that returned; an exception passes through.
infixl 5 ◌>>=◌
abbrev pub ◌>>=◌ {ℓ κ} : {V : Type ℓ} {W : Type κ} → Result V → (V → Result W) → Result W
raised e >>= next = raised e
ok v >>= next = next v

-- Where both returned, the value in between.
pub >>=-eq-ok {ℓ κ} :
    {V : Type ℓ} {W : Type κ} (call : Result V) (next : V → Result W) {w : W}
    → (call >>= next) ≡ ok w
    → (v : V) × (call ≡ ok v) × (next v ≡ ok w)
>>=-eq-ok (raised e) next both = cc
>>=-eq-ok (ok v) next both = (v, refl, both)

infixl 5 ◌>>◌
abbrev pub ◌>>◌ {κ} : {W : Type κ} → Result (Unit {0}) → Result W → Result W
raised e >> second = raised e
ok u >> second = second

-- A chain of calls raises `e` only where one of them does.
pub >>=-ne-raised {ℓ κ} :
    {V : Type ℓ} {W : Type κ} (call : Result V) (next : V → Result W) (e : Error)
    → call ≢ raised e
    → ((v : V) → call ≡ ok v → next v ≢ raised e)
    → (call >>= next) ≢ raised e
>>=-ne-raised (raised d) next e first second = λ same. first cc
>>=-ne-raised (ok v) next e first second = second v refl

-- [f(x) for x in xs]
abbrev pub map_results {ℓ κ} : {V : Type ℓ} {W : Type κ} → (V → Result W) → List V → Result (List W)
map_results f [] = ok []
map_results f (v ∷ vs) = do w ← f v; ws ← map_results f vs; ok (w ∷ ws)

-- A call returns.
abbrev pub Succeeds {ℓ} : {V : Type ℓ} → Result V → Type ℓ
Succeeds {V = V} r = (v : V) × (r ≡ ok v)

pub Succeeds->>= {ℓ κ} :
    {V : Type ℓ} {W : Type κ} (call : Result V) (next : V → Result W)
    → ((v : V) → Succeeds (next v))
    → Succeeds (call >>= next) ↔ Succeeds call
Succeeds->>= (raised e) next each = (λ (w, same). cc, λ (v, same). cc)
Succeeds->>= (ok v) next each = (λ h. (v, refl), λ h. each v)

pub Succeeds-map_results {ℓ κ μ} :
    {V : Type ℓ} {W : Type κ} (f : V → Result W) (P : V → Type μ)
    → ((v : V) → Succeeds (f v) ↔ P v)
    → (vs : List V) → Succeeds (map_results f vs) ↔ All P vs
Succeeds-map_results f P each [] = (λ h. tt, λ h. ([], refl))
Succeeds-map_results f P each (v ∷ vs) = (
  λ (ws, same).
      let (w, first, then_rest) = >>=-eq-ok (f v) _ same in
      let (ws', others, _) = >>=-eq-ok (map_results f vs) _ then_rest in
      ((each v).0 (w, first), (Succeeds-map_results f P each vs).0 (ws', others)),
  λ (p, ps).
      let (w, first) = (each v).1 p in
      let (ws, others) = (Succeeds-map_results f P each vs).1 ps in
      (w ∷ ws, rw first (rw others refl)),
)
