-- ===== src/Server/Descriptors.antt =====
-- server.go: the loops that give a controller a handler for each discovered service.
pub mod Routed
use totem.Base.{ℕ, Bool, List, [], ◌∷◌, ◌+◌, Text, text_eq}
use totem.Base.Go.{Go, returns, ◌>>=◌}
use totem.Base.Table.{Table}
use totem.Wire.{ServiceDescriptor}
use totem.Handlers.{ServiceHandler, Invoker, new_default_service_handler, register}

module _ (equal : ServiceDescriptor → ServiceDescriptor → Bool) where
  -- The handlers have the numbers from `next` on, the context `ctx` and the one invoker.
  unfoldable pub register_all :
      ℕ
      → Invoker
      → ℕ
      → List ServiceDescriptor
      → Table Text (List ServiceHandler)
      → Go (Table Text (List ServiceHandler))
  unfolding new_default_service_handler register
  register_all ctx invoker next [] services = returns services
  register_all ctx invoker next (desc ∷ descs) services = do
    handler ← new_default_service_handler next ctx desc invoker
    more ← register equal handler services
    register_all ctx invoker (next + 1) descs more
