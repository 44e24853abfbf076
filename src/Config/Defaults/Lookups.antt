-- ===== src/Config/Defaults/Lookups.antt =====
-- The values of X_CSI_EMBER_CONFIG that `Config._get_ember_cfg` of ember_csi/config.py leaves.
use mathlib.Core.Option
use ember_csi.Base.{◌≡◌, refl, ap, ◌∙◌, eq_iff, String, Option, some, [], ◌∷◌, arith}
use ember_csi.Base.Dict.{Dict, lookup, set_default}
use ember_csi.Rpc.{ok}
use ember_csi.Config.Backend.{Setting, text}
use ember_csi.Config.Backend.Renames.{or_else, lookup-set_default}
use ember_csi.Config.Defaults.{set_defaults, replace_in, replace_all, replace_by, get_ember_cfg}

module _ {J : Type 0} where
  lookup-set_defaults :
      (k : String) (ds config : Dict (Setting J))
      → lookup k (set_defaults ds config) ≡ or_else (lookup k config) (lookup k ds)
  unfolding set_defaults lookup
  lookup-set_defaults k [] config = ground arith
  lookup-set_defaults k ((j, v) ∷ ds) config =
      lookup-set_defaults k ds (set_default j v config)
      ∙ ap (λ (o : Option (Setting J)). or_else o (lookup k ds)) (lookup-set_default j k v config)
      ∙ ground (arith, eq_iff j k)

  lookup-replace_all :
      (k path : String) (config : Dict (Setting J))
      → lookup k (replace_all path config) ≡ Option.map (replace_in path) (lookup k config)
  unfolding replace_all lookup
  lookup-replace_all k path [] = refl
  lookup-replace_all k path ((j, v) ∷ c) = ground (arith, lookup-replace_all k path c)

  -- The value of an option is the configured one, or else the default one, with the configured or
  -- else default path of the state in the place of '$state_path'.
  pub lookup-get_ember_cfg :
      (k path : String) (defaults config : Dict (Setting J))
      → or_else (lookup "state_path" config) (lookup "state_path" defaults) ≡ some (text path)
      → (full : Dict (Setting J)) × (get_ember_cfg defaults config ≡ ok full)
        × (lookup k full
            ≡ Option.map (replace_in path) (or_else (lookup k config) (lookup k defaults)))
  unfolding get_ember_cfg replace_by
  lookup-get_ember_cfg k path defaults config given =
      let here : lookup "state_path" (set_defaults defaults config) ≡ some (text path) =
        lookup-set_defaults "state_path" defaults config ∙ given in
      (
        replace_all path (set_defaults defaults config),
        rw here refl,
        lookup-replace_all k path (set_defaults defaults config)
            ∙ ap (λ (o : Option (Setting J)). Option.map (replace_in path) o)
                (lookup-set_defaults k defaults config),
      )
