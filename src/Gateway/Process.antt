-- ===== src/Gateway/Process.antt =====
-- The process of crates/ajar-gateway/src/main.rs: `main` with the serving layer behind it, and the
-- signals that it waits for.
use ajar_gateway.Common.{
  ℕ, ◌≡◌, refl, ◌↔◌, inl, inr, ap, Bool, true, false, ◌||◌, Option, List, [], ◌∷◌, ok, Some,
}
use ajar_gateway.Text.{Text}
use ajar_gateway.Store.FilePath.{FilePath}
use ajar_gateway.Store.Backend.{FileSystem}
use ajar_gateway.Store.Validate.{Serde}
use ajar_gateway.Store.Clock.{clamped_seconds}
use ajar_gateway.Serving.Http.{Http}
use ajar_gateway.Serving.Config.{GatewayConfig}
use ajar_gateway.Serving.State.{ProxyState}
use ajar_gateway.Serving.Start.Shutdown.{
  Run, serve_until_shutdown, IsServed, serve_until_shutdown_with_clock_iff,
}
use ajar_gateway.Gateway.{OsString, parse_config_path}
use ajar_gateway.Gateway.Config.{IsLoaded, load_config_iff}
use ajar_gateway.Gateway.Main.{
  ExitCode, success, failure, LogLine, run, main, Ran, not_located, not_loaded, not_served, stopped,
  main-Ran,
}

pub data Signal : Type 0 where
  interrupt terminate : Signal

-- `shutdown_signal` of the binary: whether it has returned, from the signals so far. The handler of
-- the termination may be refused; then the interrupt alone ends the process.
abbrev pub ends_wait : Bool → Signal → Bool
ends_wait installed interrupt = true
ends_wait installed terminate = installed

unfoldable pub process_shutdown : (installed : Bool) → List Signal → Bool
process_shutdown installed [] = false
process_shutdown installed (signal ∷ signals) =
    ends_wait installed signal || process_shutdown installed signals

-- The wait for the signals ends with the first interrupt, and with the first request to terminate
-- where its handler is installed.
pub process_shutdown_iff :
    (installed : Bool) (signals : List Signal)
    → (process_shutdown installed signals ≡ true)
      ↔ Some (λ signal. ends_wait installed signal ≡ true) signals
unfolding process_shutdown
process_shutdown_iff installed [] = (λ h. absurd (cc), λ h. absurd h)
process_shutdown_iff installed (interrupt ∷ signals) = (λ h. inl refl, λ h. refl)
process_shutdown_iff true (terminate ∷ signals) = (λ h. inl refl, λ h. refl)
process_shutdown_iff false (terminate ∷ signals) = (
  λ h. inr ((process_shutdown_iff false signals).0 h),
  λ h. elim h [ inl e ↦ absurd (cc) | inr later ↦ (process_shutdown_iff false signals).1 later ],
)

module _ {H V U B Addr Value S : Type 0} (http : Http H V U B) (serde : Serde Value)
    (fs : FileSystem S) (from_str : Text → Option (GatewayConfig Addr))
    (lossy display : OsString → Text) where
  -- `main` with `serve_until_shutdown`.
  abbrev pub process :
      S
      → (List Addr → Addr → Bool)
      → (ProxyState Addr Value → Run)
      → Option ℕ
      → List OsString
      → Option OsString
      → ExitCode × List LogLine
  process s binds runs elapsed args env_path =
      main http from_str fs lossy display
        (λ config. serve_until_shutdown http serde fs s binds runs config elapsed) s args env_path

  -- A process that has served to its end.
  pub record IsFinished (s : S) (binds : List Addr → Addr → Bool)
      (runs : ProxyState Addr Value → Run) (elapsed : Option ℕ) (args : List OsString)
      (env_path : Option OsString) : Type 0 where
    pub path : FilePath
    pub path_is : parse_config_path args env_path ≡ ok path
    pub config : GatewayConfig Addr
    pub loaded : IsLoaded http from_str fs s path config
    pub served : IsServed http serde fs s binds runs config (clamped_seconds elapsed)

  failed_no_success :
      (lines : List LogLine) (outcome : ExitCode × List LogLine)
      → outcome ≡ (failure, lines)
      → outcome.0 ≡ success
      → ⊥
  failed_no_success lines outcome e h = cc (ap (λ (o : ExitCode × List LogLine). o.0) e)

  process-IsFinished :
      (s : S) (binds : List Addr → Addr → Bool) (runs : ProxyState Addr Value → Run)
      (elapsed : Option ℕ) (args : List OsString) (env_path : Option OsString)
      (outcome : ExitCode × List LogLine)
      → Ran http from_str fs lossy display
          (λ config. serve_until_shutdown http serde fs s binds runs config elapsed)
          s
          args
          env_path
          outcome
      → outcome.0 ≡ success
      → IsFinished s binds runs elapsed args env_path
  process-IsFinished s binds runs elapsed args env_path outcome (not_located e _ is) h =
      absurd (failed_no_success _ outcome is h)
  process-IsFinished s binds runs elapsed args env_path outcome (not_loaded path e _ _ is) h =
      absurd (failed_no_success _ outcome is h)
  process-IsFinished s binds runs elapsed args env_path outcome (not_served path config e _ _ _ is)
        h =
      absurd (failed_no_success _ outcome is h)
  process-IsFinished s binds runs elapsed args env_path outcome
        (stopped path config located loaded served is) h =
      record {
        path = path;
        path_is = located;
        config = config;
        loaded = loaded;
        served =
            (serve_until_shutdown_with_clock_iff http serde fs s binds runs config
                (clamped_seconds elapsed)).0
              served;
      }

  -- The process exits with success exactly if the command line or the environment names a
  -- configuration file, the file loads, the gateway starts with it, its store included, and both
  -- servers end as the shutdown signal asks.
  pub process_iff :
      (s : S) (binds : List Addr → Addr → Bool) (runs : ProxyState Addr Value → Run)
      (elapsed : Option ℕ) (args : List OsString) (env_path : Option OsString)
      → ((process s binds runs elapsed args env_path).0 ≡ success)
        ↔ IsFinished s binds runs elapsed args env_path
  unfolding main run
  process_iff s binds runs elapsed args env_path = (
    process-IsFinished s binds runs elapsed args env_path _ (
        main-Ran http from_str fs lossy display
          (λ config. serve_until_shutdown http serde fs s binds runs config elapsed) s args
          env_path),
    λ f.
        rw
          (
            f.path_is,
            (load_config_iff http from_str fs s f.path f.config).1 f.loaded,
            (serve_until_shutdown_with_clock_iff http serde fs s binds runs f.config
                  (clamped_seconds elapsed)).1
                f.served,
          )
          refl,
  )
