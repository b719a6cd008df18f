-- ===== src/Admin/Server/Runs.antt =====
-- crates/admin/src/admin/server.rs: what is known of an action that ends well, and what actions
-- keep.
use ghaf_givc.Prelude.{
  ◌≡◌, refl, sym, ap, ◌∙◌, ◌⊎◌, inl, inr, Bool, true, false, List, [], ◌∷◌, ◌++◌, if◌then◌else◌,
  list_eq, option_eq, nat_eq, Error, Result, ok, err, panic, ensure,
}
use ghaf_givc.Admin.Types.{UnitStatus}
use ghaf_givc.Admin.Server.World.{
  Env, World, Action, ◌>>=◌, continue, lift, on_error, match_result, EndpointConfig, Call, connect,
  after_call, open_channel, ask_unit,
}
use ghaf_givc.Admin.Server.Client.{unit_call, status_response}

module _ {A B : Type 0} where
  continue-eq-ok :
      (k : A → Action B) (r : Result A × World) {b : B} {v : World}
      → continue k r ≡ (ok b, v)
      → (a : A) × (u : World) × (r ≡ (ok a, u)) × (k a u ≡ (ok b, v))
  continue-eq-ok k (ok a, u) e = (a, u, refl, e)
  continue-eq-ok k (err why, u) e = cc
  continue-eq-ok k (panic, u) e = cc

  -- A sequence that ends well has two parts that end well.
  pub >>=-ends :
      (m : Action A) (k : A → Action B) (w : World) {b : B} {v : World}
      → (m >>= k) w ≡ (ok b, v)
      → (a : A) × (u : World) × (m w ≡ (ok a, u)) × (k a u ≡ (ok b, v))
  >>=-ends m k w e = continue-eq-ok k (m w) e

-- A check that passes changes nothing.
pub ensure-ends :
    (test : Bool) (why : Error) {w v : World}
    → lift (ensure test why) w ≡ (ok tt, v)
    → (test ≡ true) × (w ≡ v)
ensure-ends true why e = (refl, cc)
ensure-ends false why e = cc

pub if-ends :
    {A : Type 0} (test : Bool) (m n : Action A) {w : World} {r : Result A × World}
    → (if test then m else n) w ≡ r
    → (test ≡ true) × (m w ≡ r) ⊎ (test ≡ false) × (n w ≡ r)
if-ends true m n e = inl (refl, e)
if-ends false m n e = inr (refl, e)

-- The status in the answer of an agent after the calls so far.
abbrev pub then_ask : {A B : Type 0} → (A → Result B) → Result A → Result B
then_ask f (ok a) = f a
then_ask f (err e) = err e
then_ask f panic = panic

unfoldable pub answer : Env → List Call → EndpointConfig → Call → Result UnitStatus
answer env calls ec call =
    then_ask (λ _. then_ask status_response (env.units (calls ++ (connect ec ∷ [])) call))
      (env.connects calls ec)

abbrev pub after_unit_call : Env → EndpointConfig → Call → World → World
after_unit_call env ec call w = after_call env call (after_call env (connect ec) w)

-- A call that ends well gives the agent's answer.
pub unit_call-ends :
    (env : Env) (ec : EndpointConfig) (call : Call) {w v : World} {status : UnitStatus}
    → unit_call env ec call w ≡ (ok status, v)
    → (answer env w.calls ec call ≡ ok status) × (v ≡ after_unit_call env ec call w)
unfolding unit_call answer open_channel ask_unit
unit_call-ends env ec call {w} {v} {status} e =
    let (_, u, opened, rest) = >>=-ends (open_channel env ec) _ w e in
    let (response, x, asked, told) = >>=-ends (ask_unit env call) _ u rest in
    let c : env.connects w.calls ec ≡ ok tt = ap (λ r. r.0) opened in
    let same : after_call env (connect ec) w ≡ u = ap (λ r. r.1) opened in
    let told_u : env.units (w.calls ++ (connect ec ∷ [])) call ≡ ok response =
      ap (λ x. env.units x.calls call) same ∙ ap (λ r. r.0) asked in
    (
      ap (then_ask (λ _. then_ask status_response (env.units (w.calls ++ (connect ec ∷ [])) call)))
            c
          ∙ (ap (then_ask status_response) told_u ∙ ap (λ r. r.0) told),
      sym (ap (λ r. r.1) told) ∙ (sym (ap (λ r. r.1) asked) ∙ ap (after_call env call) (sym same)),
    )

module _ (P : World → Type 0) where
  abbrev pub Keeps : {A : Type 0} → Action A → Type 0
  Keeps m = (w : World) → P w → P (m w).1

  module _ {A B : Type 0} where
    pub >>=-Keeps :
        (m : Action A) (k : A → Action B) → Keeps m → ((a : A) → Keeps (k a)) → Keeps (m >>= k)
    >>=-Keeps m k hm hk w h = split (m w) (hm w h)
      where
        split : (r : Result A × World) → P r.1 → P (continue k r).1
        split (ok a, u) p = hk a u p
        split (err e, u) p = p
        split (panic, u) p = p

    pub match_result-Keeps :
        (m : Action A) (on_err : Action B) (k : A → Action B)
        → Keeps m
        → Keeps on_err
        → ((a : A) → Keeps (k a))
        → Keeps (match_result m on_err k)
    match_result-Keeps m on_err k hm he hk w h = split (m w) (hm w h)
      where
        split : (r : Result A × World) → P r.1 → P (on_error on_err k r).1
        split (ok a, u) p = hk a u p
        split (err e, u) p = he u p
        split (panic, u) p = p

  pub if-Keeps :
      {A : Type 0} (b : Bool) (m n : Action A) → Keeps m → Keeps n → Keeps (if b then m else n)
  if-Keeps true m n hm hn = hm
  if-Keeps false m n hm hn = hn
