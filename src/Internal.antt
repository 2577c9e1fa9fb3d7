-- ===== src/Internal.antt =====
-- internal/health and internal/cleaner: the two requests that serve a sidecar.
use gnomock.Base.{ℤ, pos, Text, lit, leb, has_prefix, ◌∷◌, ◌++◌, if◌then◌else◌}
use gnomock.Base.Decimal.{itoa}
use gnomock.Errors.{plain}
use gnomock.Engine.{World, http_get as http_get_call, http_notify}
use gnomock.Engine.Actions.{ok, M, ask, pure, fail, ◌>>=◌}

-- cleaner.Image and cleaner.Port
abbrev pub cleaner_port : ℤ
cleaner_port = pos 8008

unfoldable pub cleaner_image : Text
cleaner_image = lit "docker.io/orlangure/gnomock-cleaner"

-- The URL that HTTPGet requests.
unfoldable pub with_scheme : Text → Text
unfolding has_prefix
with_scheme addr = if has_prefix addr (lit "http://") then addr else lit "http://" ++ addr

module _ (w : World) where
  -- health.HTTPGet: an answer below 400 passes.
  unfoldable pub http_get : Text → M (Unit {0})
  unfolding with_scheme itoa
  http_get addr = do
    let url = with_scheme addr
    status ← ask (http_get_call url) (w.gets url)
    if leb 400 status
        then fail (plain (lit "unexpected response code: " ++ itoa (pos status)))
        else pure tt

-- cleaner.Notify: the request is sent by a goroutine and its answer is not looked at.
unfoldable pub notify : Text → Text → M (Unit {0})
notify addr id h = (ok tt, http_notify (lit "http://" ++ (addr ++ (lit "/sync/" ++ id))) ∷ h)
