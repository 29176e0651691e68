-- ===== src/Context.antt =====
-- src/ucp/mod.rs: `Config` and `Context`. An `Arc<Context>` is its handle; the drop glue of the `Arc`
-- calls `drop_context` when the last one goes.
use async_ucx.Base.{ℕ, Bool, true, [], ◌∷◌, if◌then◌else◌}
use async_ucx.Error.{from_status}
use async_ucx.Ffi.{
  Ucx, Feature, ParamField, Params, Call, M, ◌>>=◌, ◌>>◌, pure, lift, catch, unwrap, assume_init,
  ffi, ffi_unit,
}

pub record Config : Type 0 where
  pub handle : ℕ

pub record Context : Type 0 where
  pub handle : ℕ

-- `Drop::drop` of both.
unfoldable pub drop_config : Config → M (Unit {0})
drop_config c = ffi_unit (Call.config_release c.handle)

unfoldable pub drop_context : Context → M (Unit {0})
drop_context c = ffi_unit (Call.cleanup c.handle)

unfoldable pub print_config : Config → M (Unit {0})
print_config c = ffi_unit (Call.config_print c.handle)

unfoldable pub print_context : Context → M (Unit {0})
print_context c = ffi_unit (Call.context_print_info c.handle)

-- The parameters of `new_with_config`. `am` says whether the crate has the feature "am", and
-- `request_size` is the size of `Request`.
unfoldable pub params : Bool → ℕ → Params
params am request_size = record {
  field_mask =
      ParamField.features ∷ ParamField.request_size ∷ ParamField.request_init
      ∷ ParamField.request_cleanup ∷ ParamField.mt_workers_shared ∷ [];
  features =
      Feature.rma
      ∷ Feature.tag
      ∷ Feature.stream
      ∷ Feature.wakeup
      ∷ (if am then Feature.am ∷ [] else []);
  request_size = request_size;
  request_init = true;
  request_cleanup = true;
  mt_workers_shared = 1;
}

module _ (ucx : Ucx) where
  -- `Config::default`
  unfoldable pub default_config : M Config
  default_config = do
    r ← ffi ucx Call.config_read
    unwrap (from_status r.status)
    handle ← assume_init r.handle
    pure (record { handle = handle })

  unfoldable pub new_with_config : Bool → ℕ → Config → M Context
  unfolding params
  new_with_config am request_size config = do
    r ← ffi ucx (Call.init_version (params am request_size) config.handle)
    lift (from_status r.status)
    handle ← assume_init r.handle
    pure (record { handle = handle })

  -- The configuration is a temporary, which is dropped whether the context was made or not.
  unfoldable pub new : Bool → ℕ → M Context
  new am request_size = do
    config ← default_config
    result ← catch (new_with_config am request_size config)
    drop_config config
    lift result

  -- What comes back is the attribute structure, as UCX has written it.
  unfoldable pub query : Context → M ℕ
  query c = do
    r ← ffi ucx (Call.context_query c.handle)
    lift (from_status r.status)
    assume_init r.handle
