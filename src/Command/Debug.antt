-- ===== src/Command/Debug.antt =====
-- cmd/hbsqueue/debug.go: the metrics that are published, and the multiplexer of the debug listener.
-- net/http/pprof, expvar and runtime/metrics are parameters; so is the page of the dashboard, which
-- html/template makes of static text.
pub mod Numbers
use hbs_queue.Http.Message.{Handler, answered, set_header, write, text}
use hbs_queue.Http.Routes.{Route}
use hbs_queue.Prelude.{
  ℕ, String, Option, none, some, List, [], ◌∷◌, Bytes, codes, if◌then◌else◌, str_eq,
}

-- metrics.Value with its Kind; `F` is float64.
pub data Value (F : Type 0) : Type 0 where
  uint64 : ℕ → Value F
  float64 : F → Value F
  bad : Value F  -- not supported on this platform
  other : Value F  -- a histogram

pub record Sample (F : Type 0) : Type 0 where
  pub name : String
  pub value : Value F

-- The values of the map that the published function returns.
pub data Published (F : Type 0) : Type 0 where
  integer : ℕ → Published F
  float : F → Published F

pub record Endpoints (W : Type 0) : Type 0 where
  pub index : Handler W
  pub cmdline : Handler W
  pub profile : Handler W
  pub symbol : Handler W
  pub trace : Handler W
  pub vars : Handler W

abbrev pub Metrics : Type 0 → Type 0
Metrics F = String → Option (Published F)

module _ {F : Type 0} where
  abbrev assign : String → Published F → Metrics F → Metrics F
  assign name v out = λ key. if str_eq key name then some v else out key

  -- One round of the loop over the samples.
  abbrev pub publish : Sample F → Metrics F → Metrics F
  publish s out = elim s.value [
    | uint64 n ↦ assign s.name (integer n) out
    | float64 x ↦ assign s.name (float x) out
    | bad ↦ out
    | other ↦ out
  ]

  unfoldable pub publish_all : List (Sample F) → Metrics F → Metrics F
  publish_all [] out = out
  publish_all (s ∷ samples) out = publish_all samples (publish s out)

  -- The function that init publishes as "runtime".
  unfoldable pub runtime_metrics : List (Sample F) → Metrics F
  runtime_metrics samples = publish_all samples (λ key. none)

module _ {W : Type 0} (page : Bytes) (endpoints : Endpoints W) where
  unfoldable pub handle_debug_dashboard : Handler W
  handle_debug_dashboard w r writer = answered w (
      write (text page) (record writer {
        headers = set_header "Content-Type" (codes "text/html; charset=utf-8") writer.headers;
      }))

  unfoldable pub new_debug_mux : List (Route W)
  new_debug_mux =
      record { pattern = "/debug/pprof/"; handler = endpoints.index }
      ∷ record { pattern = "/debug/pprof/cmdline"; handler = endpoints.cmdline }
      ∷ record { pattern = "/debug/pprof/profile"; handler = endpoints.profile }
      ∷ record { pattern = "/debug/pprof/symbol"; handler = endpoints.symbol }
      ∷ record { pattern = "/debug/pprof/trace"; handler = endpoints.trace }
      ∷ record { pattern = "/debug/vars"; handler = endpoints.vars }
      ∷ record { pattern = "/debug/dashboard"; handler = handle_debug_dashboard }
      ∷ []
