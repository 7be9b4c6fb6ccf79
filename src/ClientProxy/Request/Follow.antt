-- ===== src/ClientProxy/Request/Follow.antt =====
-- The whole of a request for a service through getServiceCompleted of lib/clientproxy.cpp.
use qt_rpc.Base.{
  false, get_elem?, ◌-◌, suc, ℕ, ◌+◌, ◌≤◌, ◌≡◌, ◌≢◌, ◌⊎◌, inl, inr, ap, ◌∙◌, Option, none, some,
  List, [], ◌∷◌, arith, length, eq_iff,
}
use qt_rpc.Qt.{Qt}
use qt_rpc.ReturnValue
use qt_rpc.ReturnValue.{ReturnValue}
use qt_rpc.ClientProxy.{World, Env}
use qt_rpc.ClientProxy.Sharer.{ObjectSlot, Returned, Status, ClientProxy}
use qt_rpc.ClientProxy.Request.{
  Deed, asked, sent, send_return_value, Stepped, get_service_completed,
}
use qt_rpc.ClientProxy.Request.Alive.{Alive}
use qt_rpc.ClientProxy.Request.Steps.{Pending, get_service_completed-cases}

-- the returns that were sent
abbrev pub sent_of : {V : Type 0} → List (Deed V) → List (ObjectSlot × Returned V)
sent_of [] = []
sent_of (asked id ∷ done) = sent_of done
sent_of (sent obj r ∷ done) = (obj, r) ∷ sent_of done

module _ {V B : Type 0} (q : Qt V) (env : Env V B) where
  abbrev pub Sent : Type 0
  Sent = List (ObjectSlot × Returned V)

  -- what follows a step: the return of the call it made, or nothing
  abbrev pub went :
      (World V B → ClientProxy V → ℕ → Option Sent) → Option (Stepped V B) → Option Sent
  went next none = none
  went next (some (w, p, asked id ∷ [])) = next w p id
  went next (some (w, p, done)) = some (sent_of done)

  -- The returns in the order in which they arrive, each for the call that the step before it made:
  -- what was sent to objects, or `none` where a null pointer was followed.
  unfoldable pub follow : List (ReturnValue V) → World V B → ClientProxy V → ℕ → Option Sent
  unfolding get_service_completed
  follow [] w p id = some []
  follow (ret ∷ rets) w p id = went (follow rets) (get_service_completed q env w p id ret)

  sends :
      (obj : ObjectSlot) (r : Returned V)
      → obj.object ≢ 0
      → obj.slot ≢ ""
      → send_return_value obj r ≡ sent obj r ∷ []
  unfolding send_return_value
  sends obj r real named = ground (arith, real, named, eq_iff obj.slot "")

  -- the return of selectService among the returns of a request, when it is neither an error nor a
  -- service
  abbrev pub Lacks : List (ReturnValue V) → ℕ → Type 0
  Lacks rets k =
      (ret : ReturnValue V) × (k ≤ 2)
      × (get_elem? rets (2 - k) ≡ some ret)
      × (ReturnValue.is_error ret ≡ false)
      × (ReturnValue.is_service ret ≡ false)

  Lacks-later :
      (rets : List (ReturnValue V)) (ret : ReturnValue V) (k l : ℕ)
      → l ≡ suc k
      → Lacks rets l
      → Lacks (ret ∷ rets) k
  Lacks-later rets ret k l next (found, small, at, good, plain) =
      let less : k ≤ 1 = omega (arith, next, small) in
      let index : 2 - k ≡ suc (2 - l) = omega (arith, next, less) in
      (found, omega (arith, less), ap (get_elem? (ret ∷ rets)) index ∙ at, good, plain)

  -- A request for a service ends with the return of its fourth call at the latest: the object that
  -- asked is then sent one return value, and nothing else is sent. The one exception is a return of
  -- selectService that is neither an error nor a service: there a null pointer may be followed. The
  -- services that the connection has registered are taken to be alive until then.
  pub follow-once :
      (rets : List (ReturnValue V)) (w : World V B) (p : ClientProxy V) (id : ℕ) (obj : ObjectSlot)
      (st : Status V)
      → Pending p id obj st
      → (st.step ≤ 2 → Alive w p.connection)
      → obj.object ≢ 0
      → obj.slot ≢ ""
      → 4 ≤ st.step + length rets
      → 1 ≤ length rets
      → ((r : Returned V) × (follow rets w p id ≡ some ((obj, r) ∷ [])))
        ⊎ (Lacks rets st.step × (follow rets w p id ≡ none))
  unfolding follow
  follow-once [] w p id obj st pending alive real named enough one = absurd (omega (arith, one))
  follow-once (ret ∷ rets) w p id obj st pending alive real named enough one =
      elim (get_service_completed-cases q env w p id obj st ret pending alive) [
        | inl (fault, third, good, plain) ↦
            let here : 2 - st.step ≡ 0 = omega (arith, third) in
            inr (
              (ret, omega (arith, third), ap (get_elem? (ret ∷ rets)) here, good, plain),
              ap (went (follow rets)) fault,
            )
        | inr ((w2, p2, done), e, inl (r, d)) ↦ inl (
          r,
          ap (went (follow rets)) e
              ∙ ap (λ ds. went (follow rets) (some (w2, p2, ds))) (d ∙ sends obj r real named),
        )
        | inr ((w2, p2, done), e, inr ((id2, st2, d, waiting, next), small, living)) ↦
            let goes : follow (ret ∷ rets) w p id ≡ follow rets w2 p2 id2 =
              ap (went (follow rets)) e ∙ ap (λ ds. went (follow rets) (some (w2, p2, ds))) d in
            elim (follow-once rets w2 p2 id2 obj st2 waiting
              (λ early. living (omega (arith, next, early))) real named
              (omega (arith, enough, next)) (omega (arith, enough, small))) [
                | inl (r, once) ↦ inl (r, goes ∙ once)
                | inr (lacks, fault) ↦
                    inr (Lacks-later rets ret st.step st2.step next lacks, goes ∙ fault)
              ]
      ]
