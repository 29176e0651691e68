-- ===== src/Lifetimes/Things.antt =====
-- The balance of the values that keep nothing else alive: configurations, listeners, packed keys, keys
-- and worker addresses.
use async_ucx.Base.{
  ℕ, ◌≡◌, refl, ◌∙◌, Option, none, some, List, [], ◌∷◌, ◌++◌, if◌then◌else◌, arith,
}
use async_ucx.Ucs.{is_ok}
use async_ucx.Error.{from_status}
use async_ucx.Ffi.{Ucx, Call, Reply, World, Outcome, ok, running}
use async_ucx.Resources.{Resource, weigh, handed, acquired, given_back, released}
use async_ucx.Sync.{Channel}
use async_ucx.Context.{Config, default_config, drop_config}
use async_ucx.Worker.{Worker, WorkerAddress, drop_address}
use async_ucx.Worker
use async_ucx.Listener
use async_ucx.Endpoint.{Endpoint}
use async_ucx.Rma.{MemoryHandle, RKeyBuffer, RKey, pack, unpack, drop_buffer, drop_key}
use async_ucx.Lifetimes.{
  Value, Thing, thing, settings, listening, packed, unpacked, addressed, drop_thing,
}
use async_ucx.Lifetimes.Owned.{resource_of, split_thing}
use async_ucx.Lifetimes.Counted.{InBalance, made, worth_of, made-owned, moved, no_more}

-- What a call that returns a thing leaves with the program.
abbrev pub things_of : {A : Type 0} → (A → Thing) → Outcome A → List Value
things_of f (ok a) = thing (f a) ∷ []
things_of f _ = []

abbrev pub config_thing : Config → Thing
config_thing c = settings c.handle

abbrev pub listener_thing : {C : Channel ℕ} → Listener.Listener C → Thing
listener_thing l = listening l.handle

abbrev pub buffer_thing : RKeyBuffer → Thing
buffer_thing b = packed b.buf

abbrev pub key_thing : RKey → Thing
key_thing k = unpacked k.handle

abbrev pub address_thing : WorkerAddress → Thing
address_thing a = addressed a.worker a.handle

-- What a successful call gives, if it has written all that is read.
abbrev pub given_one : Reply → Option ℕ
given_one r = if is_ok r.status then r.handle else none

abbrev pub given_two : Reply → Option ℕ
given_two r =
    if is_ok r.status
    then elim r.handle [ none ↦ none | some h ↦ elim r.length [ none ↦ none | some n ↦ some h ] ]
    else none

module _ (ucx : Ucx) where
  called-InBalance :
      (mk : ℕ → Thing) (call : Call) (g : Option ℕ) (own : List Value) (w : World)
      → ((r : Resource)
          → (if is_ok (ucx.reply w.trace call).status
              then handed r call (ucx.reply w.trace call)
              else 0)
            ≡ worth_of ucx (λ h. resource_of (mk h)) r g)
      → ((r : Resource) → given_back r call ≡ 0)
      → InBalance ucx w own
      → InBalance ucx (record w { trace = call ∷ w.trace }) (made ucx (λ h. thing (mk h)) g ++ own)
  called-InBalance mk call g own w hands keeps h r = omega (
    arith,
    keeps r,
    hands r,
    made-owned ucx (λ h. thing (mk h)) (λ h. resource_of (mk h)) own r (acquired ucx r w.trace)
        (released r w.trace) g (λ x e. omega (arith, h r, split_thing r (mk x) own)) (h r),
  )

  module _ (own : List Value) (w : World) (h : InBalance ucx w own) where
    pub default_config_lem :
        (things_of config_thing (default_config ucx w).0
          ≡ made ucx (λ x. thing (settings x)) (given_one (ucx.reply w.trace Call.config_read)))
        × ((default_config ucx w).1.trace ≡ Call.config_read ∷ w.trace)
    unfolding default_config from_status running
    default_config_lem = (ground arith, ground arith)

    pub default_config-InBalance :
        InBalance ucx
          (default_config ucx w).1
          (things_of config_thing (default_config ucx w).0 ++ own)
    default_config-InBalance =
        let (v, t) = default_config_lem in
        moved ucx (default_config ucx w).1 w Call.config_read _ _ own v t
          (called-InBalance settings Call.config_read _ own w (λ r. ground arith) (λ r. refl) h)

    pub new_listener_lem :
        (C : Channel ℕ) (worker addr sender : ℕ)
        → let call = Call.listener_create worker addr sender in
          (things_of listener_thing (Listener.new C ucx worker addr sender w).0
            ≡ made ucx (λ x. thing (listening x)) (given_one (ucx.reply w.trace call)))
          × ((Listener.new C ucx worker addr sender w).1.trace ≡ call ∷ w.trace)
    unfolding Listener.new from_status running
    new_listener_lem C worker addr sender = (ground arith, ground arith)

    pub new_listener-InBalance :
        (C : Channel ℕ) (worker addr sender : ℕ)
        → let x = Listener.new C ucx worker addr sender w in
          InBalance ucx x.1 (things_of listener_thing x.0 ++ own)
    new_listener-InBalance C worker addr sender =
        let (v, t) = new_listener_lem C worker addr sender in
        let call = Call.listener_create worker addr sender in
        moved ucx (Listener.new C ucx worker addr sender w).1 w call _ _ own v t
          (called-InBalance listening call _ own w (λ r. ground arith) (λ r. refl) h)

    pub pack_lem :
        (m : MemoryHandle)
        → let call = Call.rkey_pack m.context m.handle in
          (things_of buffer_thing (pack ucx m w).0
            ≡ made ucx (λ x. thing (packed x)) (given_two (ucx.reply w.trace call)))
          × ((pack ucx m w).1.trace ≡ call ∷ w.trace)
    unfolding pack running
    pack_lem m = (ground arith, ground arith)

    pub pack-InBalance :
        (m : MemoryHandle)
        → InBalance ucx (pack ucx m w).1 (things_of buffer_thing (pack ucx m w).0 ++ own)
    pack-InBalance m =
        let (v, t) = pack_lem m in
        let call = Call.rkey_pack m.context m.handle in
        moved ucx (pack ucx m w).1 w call _ _ own v t
          (called-InBalance packed call _ own w (λ r. ground arith) (λ r. refl) h)

    pub unpack_lem :
        (e : Endpoint) (bytes : List ℕ)
        → let call = Call.rkey_unpack e.handle bytes in
          (things_of key_thing (unpack ucx e bytes w).0
            ≡ made ucx (λ x. thing (unpacked x)) (given_one (ucx.reply w.trace call)))
          × ((unpack ucx e bytes w).1.trace ≡ call ∷ w.trace)
    unfolding unpack running
    unpack_lem e bytes = (ground arith, ground arith)

    pub unpack-InBalance :
        (e : Endpoint) (bytes : List ℕ)
        → InBalance ucx
            (unpack ucx e bytes w).1
            (things_of key_thing (unpack ucx e bytes w).0 ++ own)
    unpack-InBalance e bytes =
        let (v, t) = unpack_lem e bytes in
        let call = Call.rkey_unpack e.handle bytes in
        moved ucx (unpack ucx e bytes w).1 w call _ _ own v t
          (called-InBalance unpacked call _ own w (λ r. ground arith) (λ r. refl) h)

    pub address_lem :
        (v : Worker)
        → let call = Call.worker_get_address v.handle in
          (things_of address_thing (Worker.address ucx v w).0
            ≡ made ucx (λ x. thing (addressed v.handle x)) (given_two (ucx.reply w.trace call)))
          × ((Worker.address ucx v w).1.trace ≡ call ∷ w.trace)
    unfolding Worker.address from_status running
    address_lem v = (ground arith, ground arith)

    pub address-InBalance :
        (v : Worker)
        → InBalance ucx
            (Worker.address ucx v w).1
            (things_of address_thing (Worker.address ucx v w).0 ++ own)
    address-InBalance v =
        let (e, t) = address_lem v in
        let call = Call.worker_get_address v.handle in
        moved ucx (Worker.address ucx v w).1 w call _ _ own e t
          (called-InBalance (addressed v.handle) call _ own w (λ r. ground arith) (λ r. refl) h)

  -- A call that gives a thing back.
  pub released-InBalance :
      (x : Thing) (call : Call) (own : List Value) (w : World)
      → ((r : Resource) → given_back r call ≡ weigh r (resource_of x))
      → ((r : Resource) (reply : Reply) → handed r call reply ≡ 0)
      → InBalance ucx w (thing x ∷ own)
      → InBalance ucx (record w { trace = call ∷ w.trace }) own
  released-InBalance x call own w back nothing h r =
      rw (nothing r (ucx.reply w.trace call), back r)
        (no_more ucx (is_ok (ucx.reply w.trace call).status) (acquired ucx r w.trace)
          ∙ omega (arith, h r, split_thing r x own))

  pub drop_thing-InBalance :
      (x : Thing) (own : List Value) (w : World)
      → InBalance ucx w (thing x ∷ own)
      → InBalance ucx (drop_thing x w).1 own
  unfolding drop_thing drop_config drop_buffer drop_key drop_address running
  drop_thing-InBalance (settings x) own w =
      released-InBalance (settings x) (Call.config_release x) own w (λ r. refl) (λ r reply. refl)
  drop_thing-InBalance (listening x) own w =
      released-InBalance (listening x) (Call.listener_destroy x) own w (λ r. refl) (λ r reply. refl)
  drop_thing-InBalance (packed x) own w =
      released-InBalance (packed x) (Call.rkey_buffer_release x) own w (λ r. refl) (λ r reply. refl)
  drop_thing-InBalance (unpacked x) own w =
      released-InBalance (unpacked x) (Call.rkey_destroy x) own w (λ r. refl) (λ r reply. refl)
  drop_thing-InBalance (addressed v x) own w =
      released-InBalance (addressed v x) (Call.worker_release_address v x) own w (λ r. refl)
        (λ r reply. refl)
