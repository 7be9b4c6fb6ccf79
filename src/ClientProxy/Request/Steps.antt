-- ===== src/ClientProxy/Request/Steps.antt =====
-- getServiceCompleted of lib/clientproxy.cpp: every request for a service comes to an end, with one
-- return sent to the object that asked.
use qt_rpc.Base.{
  true, false, ℕ, zero, suc, ◌≤◌, ◌≡◌, ◌⊎◌, inl, inr, refl, sym, ap, ◌∙◌, subst, Option, none, some,
  List, [], ◌∷◌, ◌++◌, append-nil, arith, ◌==◌, ==_refl, if-cases,
}
use qt_rpc.Base.Table.{lookup, remove, lookup-insert_self, lookup-remove, contains}
use qt_rpc.Qt.{Qt}
use qt_rpc.ReturnValue
use qt_rpc.ReturnValue.{ReturnValue}
use qt_rpc.ClientProxy.{ServiceData, World, Env}
use qt_rpc.ClientProxy.Sharer.{
  ObjectSlot, no_slot, Returned, Status, ClientProxy, value, parse_return, take_service,
}
use qt_rpc.ClientProxy.Select.{plain, take_original, token_insert, own_token}
use qt_rpc.ClientProxy.Request.{
  asked, send_return_value, Stepped, answer, again, keep_status, next_step, move_on, step_version,
  step_original, step_service, step_auth, step_at, get_service_completed, step_found, is_original,
}
use qt_rpc.ClientProxy.Request.Alive.{
  Alive, parse_return-Alive, step_version-Alive, step_again-Alive,
}

-- the request of `obj` waits for the return of the call `id`
abbrev pub Pending : {V : Type 0} → ClientProxy V → ℕ → ObjectSlot → Status V → Type 0
Pending p id obj st =
    (lookup id p.get_service_objects ≡ some obj) × (lookup obj.id p.status ≡ some st)

value_of :
    (m : List (ℕ × ObjectSlot)) (id : ℕ) (obj : ObjectSlot)
    → lookup id m ≡ some obj
    → value id m ≡ obj
unfolding value
value_of m id obj h = rw (value, h) refl

value-remove : (id : ℕ) (m : List (ℕ × ObjectSlot)) → value id (remove id m) ≡ no_slot
unfolding value
value-remove id m = rw (value, lookup-remove id id m, ==_refl id) refl

module _ {V B : Type 0} where
  -- a step that answers the request of `obj`, and one that leaves it waiting behind step `k`
  abbrev pub Answers : ObjectSlot → Stepped V B → Type 0
  Answers obj s = (r : Returned V) × (s.2 ≡ send_return_value obj r)

  abbrev pub Waits : ObjectSlot → ℕ → Stepped V B → Type 0
  Waits obj k s =
      (id : ℕ) × (st : Status V) × (s.2 ≡ asked id ∷ []) × Pending s.1 id obj st × (st.step ≡ suc k)

  answer-Answers :
      (w : World V B) (p : ClientProxy V) (id : ℕ) (obj : ObjectSlot) (r : Returned V)
      → lookup id p.get_service_objects ≡ some obj
      → Answers obj (answer w p id r)
  unfolding answer
  answer-Answers w p id obj r h =
      (r, ap (λ o. send_return_value o r) (value_of p.get_service_objects id obj h))

  -- a second answer finds no object, and sends nothing
  again-Answers :
      (w : World V B) (p : ClientProxy V) (id : ℕ) (obj : ObjectSlot) (r r2 : Returned V)
      → lookup id p.get_service_objects ≡ some obj
      → Answers obj (again id r2 (answer w p id r))
  unfolding again answer send_return_value
  again-Answers w p id obj r r2 h = (
    r,
    ap (λ o. send_return_value (value id p.get_service_objects) r ++ send_return_value o r2)
          (value-remove id p.get_service_objects)
        ∙ append-nil (send_return_value (value id p.get_service_objects) r)
        ∙ ap (λ o. send_return_value o r) (value_of p.get_service_objects id obj h),
  )

module _ {V B : Type 0} (q : Qt V) (env : Env V B) where
  abbrev Goes : ObjectSlot → ℕ → Stepped V B → Type 0
  Goes obj k s = Answers obj s ⊎ Waits obj k s

  move_on-cases :
      (p : ClientProxy V) (id : ℕ) (obj : ObjectSlot) (st : Status V)
      (c : ReturnValue V × World V B)
      → lookup id p.get_service_objects ≡ some obj
      → Goes obj st.step (move_on q env p id obj.id st c)
  unfolding move_on keep_status
  move_on-cases p id obj st (ret, w) h =
      if-cases (Goes obj st.step) (ReturnValue.is_error ret) _ _
        (λ failed. inl (answer-Answers w p id obj (plain ret) h))
        (λ going. inr (
          q.to_uint ret.value,
          next_step st,
          refl,
          (
            lookup-insert_self (q.to_uint ret.value) (value id p.get_service_objects)
                  (remove id p.get_service_objects)
                ∙ ap some (value_of p.get_service_objects id obj h),
            lookup-insert_self obj.id (next_step st) p.status,
          ),
          refl,
        ))

  step_version-cases :
      (w : World V B) (p : ClientProxy V) (id : ℕ) (obj : ObjectSlot) (st : Status V)
      (ret : ReturnValue V)
      → lookup id p.get_service_objects ≡ some obj
      → Goes obj st.step (step_version q env w p id obj.id st ret)
  unfolding step_version
  step_version-cases w p id obj st ret h =
      if-cases (Goes obj st.step) (q.to_int ret.value == 0) _ _
        (λ original. move_on-cases p id obj (record st { version = some (q.to_int ret.value) }) _ h)
        (λ later. move_on-cases p id obj (record st { version = some (q.to_int ret.value) }) _ h)

  -- the return of selectService that is neither an error nor a service, at which a null pointer is
  -- followed
  abbrev pub Null : ℕ → ReturnValue V → Option (Stepped V B) → Type 0
  Null k ret o =
      (o ≡ none)
      × (k ≡ 2)
      × (ReturnValue.is_error ret ≡ false)
      × (ReturnValue.is_service ret ≡ false)

  -- a step that follows a null pointer, that answers, or that waits and is none of the last
  abbrev pub Ends : ObjectSlot → ℕ → ReturnValue V → Option (Stepped V B) → Type 0
  Ends obj k ret o =
      Null k ret o
      ⊎ ((s : Stepped V B) × (o ≡ some s)
          × (Answers obj s ⊎ (Waits obj k s × (k ≤ 2) × (k ≤ 1 → Alive s.0 s.1.connection))))

  Goes-Ends :
      (obj : ObjectSlot) (k : ℕ) (ret : ReturnValue V) (s : Stepped V B)
      → k ≤ 2
      → (k ≤ 1 → Alive s.0 s.1.connection)
      → Goes obj k s
      → Ends obj k ret (some s)
  Goes-Ends obj k ret s small alive (inl a) = inr (s, refl, inl a)
  Goes-Ends obj k ret s small alive (inr waits) = inr (s, refl, inr (waits, small, alive))

  step_service-cases :
      (w : World V B) (p : ClientProxy V) (id : ℕ) (obj : ObjectSlot) (st : Status V)
      (r : Returned V) (ret : ReturnValue V) (o : Option ServiceData)
      → lookup id p.get_service_objects ≡ some obj
      → ReturnValue.is_error ret ≡ false
      → (ReturnValue.is_service ret ≡ true → contains o ≡ true)
      → Ends obj 2 ret (step_service q env w p id obj.id (record st { step = 2 }) r o)
  unfolding step_service
  step_service-cases w p id obj st r ret none h good alive =
      inl (refl, refl, good, ground (arith, alive))
  step_service-cases w p id obj st r ret (some d) h good alive =
      Goes-Ends obj 2 ret _ (ground arith) (λ small. absurd (omega (arith, small)))
        (move_on-cases p id obj (record st { step = 2; service_return = some r }) _ h)

  answered :
      (obj : ObjectSlot) (k : ℕ) (ret : ReturnValue V) (s : Stepped V B)
      → Answers obj s
      → Ends obj k ret (some s)
  answered obj k ret s a = inr (s, refl, inl a)

  step_auth-Answers :
      (w : World V B) (p : ClientProxy V) (id : ℕ) (obj : ObjectSlot) (st : Status V)
      (r : Returned V)
      → lookup id p.get_service_objects ≡ some obj
      → Answers obj (step_auth q env w p id st r)
  unfolding step_auth again answer
  step_auth-Answers w p id obj st r h =
      if-cases (Answers obj) (ReturnValue.is_error r.ret) _ _
        (λ refused. again-Answers w p id obj r _ h) (λ accepted. answer-Answers w p id obj _ h)

  step_original-Answers :
      (w : World V B) (p : ClientProxy V) (id : ℕ) (obj : ObjectSlot) (st : Status V)
      (r : Returned V)
      → lookup id p.get_service_objects ≡ some obj
      → Answers obj (step_original q env w p id st r)
  unfolding step_original take_original take_service answer
  step_original-Answers w p id obj st r h =
      if-cases
        (λ (wp : World V B × ClientProxy V). Answers obj (
          answer
            (token_insert wp.0 (own_token wp.0 wp.1 st.token) "auth_return" (env.of_return r.ret))
            wp.1 id r))
        (ReturnValue.is_error r.ret) (w, p) (take_original q env w p)
        (λ refused. answer-Answers w p id obj r h) (λ accepted. answer-Answers w p id obj r h)

  step_at-cases :
      (k : ℕ) (w : World V B) (p : ClientProxy V) (id : ℕ) (obj : ObjectSlot) (st : Status V)
      (ret : ReturnValue V)
      → lookup id p.get_service_objects ≡ some obj
      → ReturnValue.is_error ret ≡ false
      → (k ≤ 2 → Alive w p.connection)
      → Ends obj k ret (step_at q env k w p id obj.id (record st { step = k }) ret)
  unfolding step_at
  step_at-cases zero w p id obj st ret h good alive =
      Goes-Ends obj 0 ret _ (ground arith)
        (λ small.
          step_again-Alive q env w p id obj.id (record st { step = 0 }) (alive (ground arith)))
        (move_on-cases p id obj (record st { step = 0 }) _ h)
  step_at-cases (suc zero) w p id obj st ret h good alive =
      Goes-Ends obj 1 ret _ (ground arith)
        (λ small.
          step_version-Alive q env w p id obj.id (record st { step = 1 }) ret
            (alive (ground arith)))
        (step_version-cases w p id obj (record st { step = 1 }) ret h)
  step_at-cases (suc (suc zero)) w p id obj st ret h good alive =
      let (r, w2) = parse_return q env w p ret in
      if-cases (Ends obj 2 ret) (is_original st) _ _
        (λ original.
          answered obj 2 ret _ (step_original-Answers w2 p id obj (record st { step = 2 }) r h))
        (λ later.
          step_service-cases w2 p id obj st r ret _ h good
            (parse_return-Alive q env w p ret (alive (ground arith))))
  step_at-cases (suc (suc (suc zero))) w p id obj st ret h good alive =
      let (r, w2) = parse_return q env w p ret in
      answered obj 3 ret _ (step_auth-Answers w2 p id obj (record st { step = 3 }) r h)
  step_at-cases (suc (suc (suc (suc k)))) w p id obj st ret h good alive =
      answered obj _ ret _ (answer-Answers w p id obj _ h)

  -- The return of a call of a waiting request answers the request, or makes it wait for the next call,
  -- which the first three steps only do, or follows a null pointer, in the third step at a return that
  -- is neither an error nor a service.
  pub get_service_completed-cases :
      (w : World V B) (p : ClientProxy V) (id : ℕ) (obj : ObjectSlot) (st : Status V)
      (ret : ReturnValue V)
      → Pending p id obj st
      → (st.step ≤ 2 → Alive w p.connection)
      → Ends obj st.step ret (get_service_completed q env w p id ret)
  unfolding get_service_completed step_found
  get_service_completed-cases w p id obj st ret (waits, has) alive =
      let same = value_of p.get_service_objects id obj waits in
      if-cases (Ends obj st.step ret) (ReturnValue.is_error ret) _ _
        (λ failed. answered obj st.step ret _ (answer-Answers w p id obj _ waits))
        (λ going.
          subst
            (λ (o : ObjectSlot).
              Ends obj st.step ret (step_found q env w p id ret o.id (lookup o.id p.status)))
            (sym same)
            (subst (λ s. Ends obj st.step ret (step_found q env w p id ret obj.id s)) (sym has)
              (step_at-cases st.step w p id obj st ret waits going alive)))
