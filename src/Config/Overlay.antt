-- ===== src/Config/Overlay.antt =====
-- overlayDaemonSettings and overlayOTelConfig of internal/cli/daemon_config.go: settings of one
-- file over those of another.
use loomcli.Common.{
  ℕ, ◌≡◌, refl, sym, ap, ◌∙◌, Bool, true, false, ◌||◌, Option, none, some, String, ℤ, pos, eqb_ℤ,
  ◌==◌, two63, if◌then◌else◌, str_eq, arith, Bool-cases, inl, inr,
}
use loomcli.Config.Types.{RestartPolicy, OTelDaemonConfig, DaemonSettings}

-- `if src != nil { dst = src }`
unfoldable pub or_keep {ℓ} : {A : Type ℓ} → Option A → Option A → Option A
or_keep dst none = dst
or_keep dst (some v) = some v

-- `if src != "" { dst = src }`
unfoldable pub or_text : String → String → String
or_text dst src = if str_eq src "" then dst else src

-- `src.SampleRate != 0`, of both zeros of float64.
abbrev is_zero_float : ℕ → Bool
is_zero_float bits = bits == 0 || bits == two63

or_float : ℕ → ℕ → ℕ
or_float dst src = if is_zero_float src then dst else src

or_int : ℤ → ℤ → ℤ
or_int dst src = if eqb_ℤ src (pos 0) then dst else src

-- `if src { dst = true }`
or_set : Bool → Bool → Bool
or_set dst src = if src then true else dst

pub overlay_otel_config : OTelDaemonConfig → OTelDaemonConfig → OTelDaemonConfig
overlay_otel_config dst src = record {
  enabled = or_set dst.enabled src.enabled;
  endpoint = or_text dst.endpoint src.endpoint;
  protocol = or_text dst.protocol src.protocol;
  service_name = or_text dst.service_name src.service_name;
  sample_rate = or_float dst.sample_rate src.sample_rate;
  flush_interval_ms = or_int dst.flush_interval_ms src.flush_interval_ms;
  traces = or_keep dst.traces src.traces;
  metrics = or_keep dst.metrics src.metrics;
}

abbrev empty_otel : OTelDaemonConfig
empty_otel = record {
  enabled = false;
  endpoint = "";
  protocol = "";
  service_name = "";
  sample_rate = 0;
  flush_interval_ms = pos 0;
  traces = none;
  metrics = none;
}

abbrev or_empty : Option OTelDaemonConfig → OTelDaemonConfig
or_empty none = empty_otel
or_empty (some o) = o

overlay_otel : Option OTelDaemonConfig → Option OTelDaemonConfig → Option OTelDaemonConfig
overlay_otel dst none = dst
overlay_otel dst (some o) = some (overlay_otel_config (or_empty dst) o)

pub overlay_restart_policy : RestartPolicy → RestartPolicy → RestartPolicy
overlay_restart_policy dst src = record {
  max_retries = or_keep dst.max_retries src.max_retries;
  backoff_initial = or_keep dst.backoff_initial src.backoff_initial;
  backoff_max = or_keep dst.backoff_max src.backoff_max;
  output_timeout = or_keep dst.output_timeout src.output_timeout;
  rate_limit_backoff = or_keep dst.rate_limit_backoff src.rate_limit_backoff;
  rate_limit_max_wait = or_keep dst.rate_limit_max_wait src.rate_limit_max_wait;
  rate_limit_no_count = or_keep dst.rate_limit_no_count src.rate_limit_no_count;
  timeout_backoff = or_keep dst.timeout_backoff src.timeout_backoff;
  no_work_backoff = or_keep dst.no_work_backoff src.no_work_backoff;
  idle_poll_interval = or_keep dst.idle_poll_interval src.idle_poll_interval;
}

pub overlay_daemon_settings : DaemonSettings → DaemonSettings → DaemonSettings
overlay_daemon_settings dst src = record {
  pid_file = or_text dst.pid_file src.pid_file;
  log_dir = or_text dst.log_dir src.log_dir;
  events_dir = or_text dst.events_dir src.events_dir;
  restart_policy = overlay_restart_policy dst.restart_policy src.restart_policy;
  max_agents = or_keep dst.max_agents src.max_agents;
  redis_url = or_text dst.redis_url src.redis_url;
  api_key = or_text dst.api_key src.api_key;
  jwt_key = or_text dst.jwt_key src.jwt_key;
  otel = overlay_otel dst.otel src.otel;
}

or_keep_assoc {ℓ} :
    {A : Type ℓ} (a b c : Option A) → or_keep (or_keep a b) c ≡ or_keep a (or_keep b c)
unfolding or_keep
or_keep_assoc a b none = refl
or_keep_assoc a b (some v) = refl

or_text_assoc : (a b c : String) → or_text (or_text a b) c ≡ or_text a (or_text b c)
unfolding or_text
or_text_assoc a b c = elim (Bool-cases (str_eq c "")) [
  | inl e ↦ rw e refl
  | inr e ↦ rw e (rw e refl)
]

or_float_assoc : (a b c : ℕ) → or_float (or_float a b) c ≡ or_float a (or_float b c)
unfolding or_float
or_float_assoc a b c = ground arith

or_set_assoc : (a b c : Bool) → or_set (or_set a b) c ≡ or_set a (or_set b c)
unfolding or_set
or_set_assoc a b c = ground arith

or_int_assoc : (a b c : ℤ) → or_int (or_int a b) c ≡ or_int a (or_int b c)
unfolding or_int
or_int_assoc a b c = ground arith

or_keep-none {ℓ} : {A : Type ℓ} (a : Option A) → or_keep a none ≡ a
unfolding or_keep
or_keep-none a = refl

overlay_otel_config_empty : (o : OTelDaemonConfig) → overlay_otel_config o empty_otel ≡ o
unfolding overlay_otel_config or_text or_keep or_float or_int or_set
overlay_otel_config_empty o = refl

overlay_otel_config_assoc :
    (a b c : OTelDaemonConfig)
    → overlay_otel_config (overlay_otel_config a b) c
      ≡ overlay_otel_config a (overlay_otel_config b c)
unfolding overlay_otel_config
overlay_otel_config_assoc a b c = λ i. record {
  enabled = or_set_assoc a.enabled b.enabled c.enabled i;
  endpoint = or_text_assoc a.endpoint b.endpoint c.endpoint i;
  protocol = or_text_assoc a.protocol b.protocol c.protocol i;
  service_name = or_text_assoc a.service_name b.service_name c.service_name i;
  sample_rate = or_float_assoc a.sample_rate b.sample_rate c.sample_rate i;
  flush_interval_ms = or_int_assoc a.flush_interval_ms b.flush_interval_ms c.flush_interval_ms i;
  traces = or_keep_assoc a.traces b.traces c.traces i;
  metrics = or_keep_assoc a.metrics b.metrics c.metrics i;
}

overlay_otel_assoc :
    (a b c : Option OTelDaemonConfig)
    → overlay_otel (overlay_otel a b) c ≡ overlay_otel a (overlay_otel b c)
unfolding overlay_otel
overlay_otel_assoc a b none = refl
overlay_otel_assoc a none (some c) = ap some (
    ap (λ o. overlay_otel_config o c) (sym (overlay_otel_config_empty (or_empty a)))
    ∙ overlay_otel_config_assoc (or_empty a) empty_otel c)
overlay_otel_assoc a (some b) (some c) = ap some (overlay_otel_config_assoc (or_empty a) b c)

overlay_restart_policy_assoc :
    (a b c : RestartPolicy)
    → overlay_restart_policy (overlay_restart_policy a b) c
      ≡ overlay_restart_policy a (overlay_restart_policy b c)
unfolding overlay_restart_policy
overlay_restart_policy_assoc a b c = λ i. record {
  max_retries = or_keep_assoc a.max_retries b.max_retries c.max_retries i;
  backoff_initial = or_keep_assoc a.backoff_initial b.backoff_initial c.backoff_initial i;
  backoff_max = or_keep_assoc a.backoff_max b.backoff_max c.backoff_max i;
  output_timeout = or_keep_assoc a.output_timeout b.output_timeout c.output_timeout i;
  rate_limit_backoff =
      or_keep_assoc a.rate_limit_backoff b.rate_limit_backoff c.rate_limit_backoff i;
  rate_limit_max_wait =
      or_keep_assoc a.rate_limit_max_wait b.rate_limit_max_wait c.rate_limit_max_wait i;
  rate_limit_no_count =
      or_keep_assoc a.rate_limit_no_count b.rate_limit_no_count c.rate_limit_no_count i;
  timeout_backoff = or_keep_assoc a.timeout_backoff b.timeout_backoff c.timeout_backoff i;
  no_work_backoff = or_keep_assoc a.no_work_backoff b.no_work_backoff c.no_work_backoff i;
  idle_poll_interval =
      or_keep_assoc a.idle_poll_interval b.idle_poll_interval c.idle_poll_interval i;
}

-- Laying the global settings over the defaults and then the local ones over both is laying over the
-- defaults what the local settings over the global ones give: the order of merging is immaterial.
overlay_daemon_settings_assoc :
    (a b c : DaemonSettings)
    → overlay_daemon_settings (overlay_daemon_settings a b) c
      ≡ overlay_daemon_settings a (overlay_daemon_settings b c)
unfolding overlay_daemon_settings
overlay_daemon_settings_assoc a b c = λ i. record {
  pid_file = or_text_assoc a.pid_file b.pid_file c.pid_file i;
  log_dir = or_text_assoc a.log_dir b.log_dir c.log_dir i;
  events_dir = or_text_assoc a.events_dir b.events_dir c.events_dir i;
  restart_policy =
      overlay_restart_policy_assoc a.restart_policy b.restart_policy c.restart_policy i;
  max_agents = or_keep_assoc a.max_agents b.max_agents c.max_agents i;
  redis_url = or_text_assoc a.redis_url b.redis_url c.redis_url i;
  api_key = or_text_assoc a.api_key b.api_key c.api_key i;
  jwt_key = or_text_assoc a.jwt_key b.jwt_key c.jwt_key i;
  otel = overlay_otel_assoc a.otel b.otel c.otel i;
}
