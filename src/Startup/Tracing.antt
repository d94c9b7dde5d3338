-- ===== src/Startup/Tracing.antt =====
-- cmd/virtual-kubelet/tracer.go: which traces are sampled, and where they are sent. Floating point
-- numbers and the exporter are parameters.
use macos_exec_kubelet.Base.{
  ◌+◌, Bool, true, false, ◌&&◌, ◌||◌, Option, none, some, Error, message, wrap, invalid_input,
  Result, ok, err, ◌>>=◌, map_err, if◌then◌else◌, ◌==◌, string_eq, nat_eq, leb,
}
use Prim.Native.String.{String, [], ◌∷◌}
use Prim.Native.Char.{Char, code}

-- strconv.ParseFloat and the arithmetic of the rates.
pub record Floats : Type 1 where
  pub Value : Type 0
  pub parse_float : String → Result Value
  pub is_negative : Value → Bool
  pub exceeds_100 : Value → Bool
  pub divide_by_100 : Value → Value

pub data Sampler (F : Type 0) : Type 0 where
  always_sample never_sample : Sampler F
  trace_id_ratio_based : F → Sampler F

-- strings.ToLower is only compared to words of ASCII, which no other letters turn into.
abbrev lower_char : Char → Char → Bool
lower_char c d =
    code c == code d || (leb b'A' (code c) && (leb (code c) b'Z' && code c + 32 == code d))

-- strings.ToLower(s) == word, for a word of lower case letters.
unfoldable pub lower_equals : String → String → Bool
lower_equals [] [] = true
lower_equals [] (d ∷ word) = false
lower_equals (c ∷ s) [] = false
lower_equals (c ∷ s) (d ∷ word) = lower_char c d && lower_equals s word

pub record TracerEnv : Type 0 where
  pub otel_endpoint : String
  pub otel_insecure : String
  pub exporter_reply : Option Error
  pub resource_reply : Option Error

pub record TracerProvider (F : Type 0) : Type 0 where
  pub endpoint : String
  pub insecure : Bool
  pub service : String
  pub sampler : Sampler F

module _ (floats : Floats) where
  check_rate : floats.Value → Result (Sampler floats.Value)
  check_rate rate =
      if floats.is_negative rate || floats.exceeds_100 rate
      then err (invalid_input (message "sample rate must be between 0 and 100"))
      else ok (trace_id_ratio_based (floats.divide_by_100 rate))

  unfoldable pub determine_sampler : String → Result (Sampler floats.Value)
  unfolding check_rate
  determine_sampler rate =
      if rate == "" || lower_equals rate "always"
      then ok always_sample
      else if lower_equals rate "never"
      then ok never_sample
      else map_err (λ e. invalid_input (wrap "parsing sample rate" e)) (floats.parse_float rate)
        >>= check_rate

  after_resource :
      TracerEnv
      → String
      → Sampler floats.Value
      → Option Error
      → Result (Option (TracerProvider floats.Value))
  after_resource env service sampler (some e) = err e
  after_resource env service sampler none = ok (
      some (record {
        endpoint = env.otel_endpoint;
        insecure = env.otel_insecure == "true";
        service = service;
        sampler = sampler;
      }))

  after_exporter :
      TracerEnv
      → String
      → Sampler floats.Value
      → Option Error
      → Result (Option (TracerProvider floats.Value))
  unfolding after_resource
  after_exporter env service sampler (some e) = err e
  after_exporter env service sampler none = after_resource env service sampler env.resource_reply

  -- The tracer provider that is set, if one is.
  unfoldable pub init_tracer_provider :
      TracerEnv → String → Sampler floats.Value → Result (Option (TracerProvider floats.Value))
  unfolding after_exporter
  init_tracer_provider env service sampler =
      if env.otel_endpoint == ""
      then ok none
      else after_exporter env service sampler env.exporter_reply

  unfoldable pub configure_tracing :
      TracerEnv → String → String → Result (Option (TracerProvider floats.Value))
  unfolding determine_sampler init_tracer_provider
  configure_tracing env service rate =
      map_err (wrap "determining sampler") (determine_sampler rate) >>= λ sampler.
      map_err (wrap "initializing tracer provider") (init_tracer_provider env service sampler)
