-- ===== src/Server/Listen.antt =====
-- cmd/server/main.go: the port and the call that listens.
use gnomock.Base.{none, some, true, false, [], ◌∷◌, ℤ, Bool, pos, lit, Option, Text}
use gnomock.Engine.Actions.{M, ask, pure, ignore}
use gnomock.Engine.{History, Reply, Call, client_call}
use gnomock.Base.Decimal.{itoa, atoi}

-- GNOMOCKD_PORT, if it is set to a number, and the flag otherwise.
unfoldable pub port_of : ℤ → Option Text → ℤ
port_of flag none = flag
port_of flag (some text) = elim (atoi text) [ none ↦ flag | some p ↦ p ]

abbrev pub flag_default : ℤ
flag_default = pos 23042

unfoldable pub listen_call : ℤ → Call
listen_call port = client_call (lit "http.ListenAndServe") ((b':' ∷ itoa port) ∷ [])

-- main: with the flag -v the version is printed, and the server is not started.
unfoldable pub main : Bool → ℤ → Option Text → (Text → History → Reply (Unit {0})) → M (Unit {0})
main true flag env serves = pure tt
main false flag env serves =
    ignore (ask (listen_call (port_of flag env)) (serves (b':' ∷ itoa (port_of flag env))))
