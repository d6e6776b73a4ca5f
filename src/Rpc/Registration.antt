-- ===== src/Rpc/Registration.antt =====
-- rpc/gen/opencdm_xdr_svc.c and opencdm_callback_svc.c: `main`, which registers a program and serves it.
-- The RPC library is a parameter.
use open_content_decryption.Base.{ℕ, ◌≡◌, Bool, true, false, Option, none, some, arith}
use open_content_decryption.Base.Int.{ℤ}

abbrev pub ipproto_tcp : ℕ
ipproto_tcp = 6

abbrev pub ipproto_udp : ℕ
ipproto_udp = 17

-- The calls of the library, on its own state. A transport is `none` for NULL, and `svc_run` leaves the
-- state that it returns in, if it returns.
pub record Registrar : Type 1 where
  pub State : Type 0
  pub pmap_unset : ℕ → ℕ → State → State
  pub svcudp_create : State → Option ℤ × State
  pub svctcp_create : State → Option ℤ × State
  pub svc_register : ℤ → ℕ → ℕ → ℕ → State → Bool × State
  pub svc_run : State → State

-- How `main` ends: `exit(1)`, and whether `svc_run` had been called.
pub data MainEnd : Type 0 where
  gave_up after_svc_run : MainEnd

module _ (library : Registrar) where
  open library use {State, pmap_unset, svcudp_create, svctcp_create, svc_register, svc_run}

  -- A transport that is made and registered.
  unfoldable pub register_transport : Option ℤ × State → ℕ → ℕ → ℕ → Bool × State
  register_transport (none, s) program version protocol = (false, s)
  register_transport (some transp, s) program version protocol =
      svc_register transp program version protocol s

  unfoldable pub main_of : ℕ → ℕ → State → MainEnd × State
  main_of program version s =
      let (udp, s1) =
        register_transport (svcudp_create (pmap_unset program version s)) program version
          ipproto_udp in
      elim udp [
        | false ↦ (gave_up, s1)
        | true ↦
            (let (tcp, s2) = register_transport (svctcp_create s1) program version ipproto_tcp in
              elim tcp [ false ↦ (gave_up, s2) | true ↦ (after_svc_run, svc_run s2) ])
      ]

  -- `main` of the service, and of the browser's callbacks.
  unfoldable pub open_cdm_main : State → MainEnd × State
  open_cdm_main = main_of 0x61135687 1

  unfoldable pub open_cdm_callback_main : State → MainEnd × State
  open_cdm_callback_main = main_of 0x66666666 1

  -- Where `main` came to serve its program, the transports over UDP and then over TCP were made and
  -- registered for it, after an older registration was dropped.
  pub main_of_lem :
      (program version : ℕ) (s s' : State)
      → main_of program version s ≡ (after_svc_run, s')
      → (s1 : State) × (s2 : State) × (register_transport
            (svcudp_create (pmap_unset program version s))
            program
            version
            ipproto_udp
          ≡ (true, s1))
        × (register_transport (svctcp_create s1) program version ipproto_tcp ≡ (true, s2))
        × (s' ≡ svc_run s2)
  unfolding main_of
  main_of_lem program version s s' h =
      let first =
        register_transport (svcudp_create (pmap_unset program version s)) program version
          ipproto_udp in
      let second = register_transport (svctcp_create first.1) program version ipproto_tcp in
      (first.1, second.1, ground (arith, h), ground (arith, h), ground (arith, h))
