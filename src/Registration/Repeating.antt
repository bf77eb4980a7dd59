-- ===== src/Registration/Repeating.antt =====
-- Registering more than once.
use rsb_spread_cpp.Base.{◌+◌, ◌≡◌, ◌⊎◌, none, some, arith, Result, ok, throw, fault}
use rsb_spread_cpp.Registration.{
  Registries, Transport, spread_entry, register_transport, unregister_transport, plugin_init,
  plugin_shutdown,
}

module _ {In Out : Type 0} (registries : Registries In Out) where
  -- One of the registries ended its call with this result, and nothing was tried after that.
  abbrev pub Broken : Transport In Out → Result (Unit {0}) → Transport In Out → Type 0
  Broken s r t =
      (t.factory ≡ some s.created)
      × (t.created ≡ s.created + 1)
      × (((registries.register_in (spread_entry s.created) s.in_factory ≡ (r, t.in_factory))
            × (t.out_factory ≡ s.out_factory))
          ⊎ ((registries.register_in (spread_entry s.created) s.in_factory ≡ (ok tt, t.in_factory))
              × (registries.register_out (spread_entry s.created) s.out_factory
                  ≡ (r, t.out_factory))))

  -- How a registration may end where there was none.
  abbrev pub Registers : Transport In Out → Result (Unit {0}) × Transport In Out → Type 0
  Registers s (ok _, t) =
      (registries.register_in (spread_entry s.created) s.in_factory ≡ (ok tt, t.in_factory))
      × (registries.register_out (spread_entry s.created) s.out_factory ≡ (ok tt, t.out_factory))
      × (t.factory ≡ some s.created)
      × (t.created ≡ s.created + 1)
  Registers s (throw e, t) = Broken s (throw e) t
  Registers s (fault x, t) = Broken s (fault x) t

  -- Loading the plugin where the transport is not registered makes a new factory and hands it to
  -- the registry for receiving and then to the one for sending, until one of them does not
  -- return, which is then the result. Whatever the result, loading it once more returns and does
  -- nothing. Unloading it leaves the registries alone, so that loading it again registers another
  -- factory, under the same name, in the registries that were told of the first one.
  pub plugin_init-Registers :
      (s : Transport In Out)
      → s.factory ≡ none
      → let t = (plugin_init registries s).1 in
        let u = (plugin_shutdown registries t).1 in
        Registers s (plugin_init registries s)
        × (plugin_init registries t ≡ (ok tt, t))
        × (u.in_factory ≡ t.in_factory)
        × (u.out_factory ≡ t.out_factory)
        × (u.created ≡ s.created + 1)
        × Registers u (plugin_init registries u)
  unfolding plugin_init plugin_shutdown register_transport unregister_transport
  plugin_init-Registers s h = ground arith
