-- ===== src/Service/Calls.antt =====
-- ServiceProxy::callFunction of lib/serviceproxy.cpp: how a call ends, and what leaves it as an
-- exception.
use qt_rpc.Base.{ℕ, ◌≡◌, ◌↔◌, ◌⊎◌, true, false, List, arith, Bool-cases, inl, inr}
use qt_rpc.Qt.{Qt}
use qt_rpc.Signature.{Signature}
use qt_rpc.ReturnValue
use qt_rpc.ReturnValue.{ReturnValue}
use qt_rpc.Proxy.{list_callbacks}
use qt_rpc.Proxy.Metacall.{
  Meta, Outcome, Exception, std_exception, other_exception, returned, raised, overrun,
  call_callback,
}
use qt_rpc.Service.{
  ServiceProxy, async_signature, lists, async_args, call_function, async_outcome, caught,
}

module _ {V S : Type 0} (q : Qt V) (meta : Meta V S) where
  module _ (of_object : ℕ → V) where
    async_outcome-raised :
        (r : Outcome V × S) (what : Exception)
        → ((async_outcome q meta of_object r).0 ≡ raised what) ↔ (r.0 ≡ raised what)
    async_outcome-raised (returned ret, s) what = ground arith
    async_outcome-raised (raised w, s) what = ground arith
    async_outcome-raised (overrun, s) what = ground arith

    caught-raised :
        (r : Outcome V × S) (what : Exception)
        → ((caught q meta of_object r).0 ≡ raised what)
          ↔ ((r.0 ≡ raised what) × (what ≡ other_exception))
    caught-raised (returned ret, s) what = ground arith
    caught-raised (raised (std_exception text), s) what = ground arith
    caught-raised (raised other_exception, s) what = ground arith
    caught-raised (overrun, s) what = ground arith

    -- An exception leaves `callFunction` exactly if it leaves the function that is called and is not
    -- caught. What is called is the function with an object and a slot for its return, if the service
    -- has it, and then no exception is caught; else it is the synchronous function, where those are
    -- caught that a handler of std::exception matches, and only those.
    pub call_function-raised :
        (v : ServiceProxy) (sig : Signature) (args : List V) (s : S) (what : Exception)
        → ((call_function q meta of_object v sig args s).0 ≡ raised what) ↔ (
            ((lists q (async_signature q sig) (list_callbacks v.proxy) ≡ true)
              × ((call_callback q meta v.proxy
                    (async_signature q sig)
                    (async_args q meta of_object v args)
                    s).0
                  ≡ raised what))
            ⊎ ((lists q (async_signature q sig) (list_callbacks v.proxy) ≡ false)
                × ((call_callback q meta v.proxy sig args s).0 ≡ raised what)
                × (what ≡ other_exception)))
    unfolding call_function
    call_function-raised v sig args s what =
        let called =
          call_callback q meta v.proxy (async_signature q sig) (async_args q meta of_object v args)
            s in
        elim (Bool-cases (lists q (async_signature q sig) (list_callbacks v.proxy))) [
          | inl listed ↦ ground (arith, listed, async_outcome-raised called what)
          | inr absent ↦
              ground (arith, absent, caught-raised (call_callback q meta v.proxy sig args s) what)
        ]

    async_outcome-returned :
        (r : Outcome V × S) (ret : ReturnValue V)
        → (async_outcome q meta of_object r).0 ≡ returned ret
        → (ReturnValue.is_error ret ≡ true) ⊎ (ret ≡ ReturnValue.async q)
    async_outcome-returned (returned r, s) ret h = ground (arith, h)
    async_outcome-returned (raised w, s) ret h = absurd (ground (arith, h))
    async_outcome-returned (overrun, s) ret h = absurd (ground (arith, h))

    -- A function that the service has with an object and a slot answers at once by an error or by the
    -- mark of an asyncronous return, never by the value that its class left.
    pub call_function-async :
        (v : ServiceProxy) (sig : Signature) (args : List V) (s : S) (ret : ReturnValue V)
        → lists q (async_signature q sig) (list_callbacks v.proxy) ≡ true
        → (call_function q meta of_object v sig args s).0 ≡ returned ret
        → (ReturnValue.is_error ret ≡ true) ⊎ (ret ≡ ReturnValue.async q)
    unfolding call_function
    call_function-async v sig args s ret listed answer =
        async_outcome-returned
          (call_callback q meta v.proxy (async_signature q sig) (async_args q meta of_object v args)
            s)
          ret (ground (arith, listed, answer))
