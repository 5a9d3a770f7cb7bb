-- ===== src/Protocol/Registration.antt =====
-- internal/protocol/registry/registry.go: the protocols of the gateway.
use astreo_gateway.Base.{[]}
use astreo_gateway.Protocol.{Protocol, Registry, register}

unfoldable pub registered : Protocol → Protocol → Protocol → Registry
unfolding register
registered open_ai anthropic gemini = register (register (register [] open_ai) anthropic) gemini
