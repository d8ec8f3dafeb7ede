-- ===== src/Config/Redirect.antt =====
-- `RedirectInterceptor` of server/src/AppComponent.hpp: requests for another host are sent to the
-- canonical one.
use canchat.Base.{
  String, string_eq, str_append, Option, none, some, ◌==◌, ◌≡◌, ◌≢◌, ◌⊎◌, inr, refl, ap, arith,
  same_refl, if◌then◌else◌,
}
use canchat.Config.{ConfigDto, Printer, get_host_string, get_canonical_base_url}

-- The response with the status 301 and its header `Location`.
pub record Moved : Type 0 where
  pub location : String

module _ (print : Printer) (config : ConfigDto) where
  abbrev redirect : String → Option Moved
  redirect path = some (record { location = str_append (get_canonical_base_url print config) path })

  -- The header `Host` may be missing; `none` lets the request through.
  unfoldable pub intercept : Option String → String → Option Moved
  intercept none path = redirect path
  intercept (some host) path = if host == get_host_string print config then none else redirect path

  -- The scheme of the canonical address.
  abbrev pub scheme : String
  scheme = if print.truth config.use_tls then "https://" else "http://"

  canonical_lem :
      get_canonical_base_url print config ≡ str_append scheme (get_host_string print config)
  unfolding get_canonical_base_url get_host_string
  canonical_lem = refl

  -- A request passes if it names the site's own host. Any other is sent to that host, under the
  -- scheme of the configuration and with its path kept; and a request to that host passes, so none
  -- is redirected twice.
  pub intercept_once :
      (host : Option String) (path : String)
      → (((host ≡ some (get_host_string print config)) × (intercept host path ≡ none))
          ⊎ ((host ≢ some (get_host_string print config))
              × (intercept host path
                  ≡ some (record {
                    location = str_append (str_append scheme (get_host_string print config)) path;
                  }))))
        × (intercept (some (get_host_string print config)) path ≡ none)
  unfolding intercept
  intercept_once none path = (
    inr ((λ e. cc), ap (λ u. some (record { location = str_append u path })) canonical_lem),
    rw (same_refl (get_host_string print config)),
  )
  intercept_once (some host) path = ground (
    arith,
    string_eq.same_iff host (get_host_string print config),
    same_refl (get_host_string print config),
    canonical_lem,
  )
