-- ===== src/Template.antt =====
-- template.go: a request template overrides the options of the command line.
--
-- Reading and decoding the file are left out: `readYAMLRequest` starts at the decoded template here.
-- The body of the request is a parameter, as is the resolving of a relative URL: its text, and its
-- path. A pointer to a Boolean is an `Option`; a map that is nil is `none` where the code asks for it.
pub mod Laws
use yab.Prelude.{
  Bool, true, false, not, List, [], ◌∷◌, Option, none, some, ◌⊎◌, inl, inr, Text, ◌==◌,
  text_comparable, if◌then◌else◌, is_nil, ◌++◌, codes,
}
use yab.Prelude.Assoc.{Assoc, lookup, insert}
use yab.Prelude.Int.{ℤ, pos, int_comparable}
use yab.Options.{RequestOptions, TransportOptions, BenchmarkOptions, Options}

-- `template`, with requests of type `R`
pub record Template (R : Type 0) : Type 0 where
  pub peers : List Text
  pub peer : Text
  pub peer_list : Text
  pub caller : Text
  pub service : Text
  pub thrift : Text
  pub procedure : Text
  pub disable_thrift_envelope : Option Bool
  pub shard_key : Text
  pub routing_key : Text
  pub routing_delegate : Text
  pub headers : Assoc Text Text
  pub baggage : Assoc Text Text
  pub jaeger : Bool
  pub force_jaeger_sample : Bool
  pub request : Option R
  pub requests : Option (List R)
  pub timeout : ℤ

pub data TemplateError : Type 0 where
  incorrect_request_fields : TemplateError
  bad_request bad_body bad_url : Text → TemplateError

-- The loop of `merge`: keys of the target stay.
unfoldable pub merge_into : Assoc Text Text → Assoc Text Text → Assoc Text Text
merge_into target [] = target
merge_into target ((k, v) ∷ source) = elim (lookup k target) [
  | none ↦ merge_into (insert k v target) source
  | some _ ↦ merge_into target source
]

-- `merge`
unfoldable pub merge : Assoc Text Text → Assoc Text Text → Assoc Text Text
unfolding merge_into
merge target source =
    if is_nil source then target else if is_nil target then source else merge_into target source

-- `overrideParam`
unfoldable pub override_param : Text → Text → Text
override_param s new = if is_nil new then s else new

-- A pointer's target, if there is one.
abbrev given_or : {A : Type 0} → Option A → A → A
given_or none d = d
given_or (some a) d = a

module _ {R : Type 0} (process_map : R → Text ⊎ R) (marshal : R → Text ⊎ Text)
    (resolve : Text → Text ⊎ Text) (resolve_path : Text → Text ⊎ Text) where
  -- One request, with the arguments put in, as YAML.
  unfoldable pub request_body : R → TemplateError ⊎ Text
  request_body r = elim (process_map r) [
    | inl e ↦ inl (bad_request e)
    | inr processed ↦ elim (marshal processed) [ inl e ↦ inl (bad_body e) | inr bytes ↦ inr bytes ]
  ]

  -- The loop over `t.Requests`.
  unfoldable pub requests_body : Text → List R → TemplateError ⊎ Text
  unfolding request_body
  requests_body body [] = inr body
  requests_body body (r ∷ rs) = elim (request_body r) [
    | inl e ↦ inl e
    | inr bytes ↦ requests_body ((body ++ codes "---\n") ++ bytes) rs
  ]

  -- `getYAMLRequestBody`
  unfoldable pub get_yaml_request_body : Template R → TemplateError ⊎ Text
  unfolding requests_body
  get_yaml_request_body t = body_of t.request t.requests
    where
      body_of : Option R → Option (List R) → TemplateError ⊎ Text
      body_of (some r) (some rs) = inl incorrect_request_fields
      body_of (some r) none = request_body r
      body_of none (some rs) = requests_body [] rs
      body_of none none = inr []

  -- The peers of the template, in place of those of the options.
  unfoldable pub template_peers : Template R → TransportOptions → TemplateError ⊎ TransportOptions
  template_peers t o =
      if not (is_nil t.peer)
      then inr (record o { peers = t.peer ∷ []; peer_list = [] })
      else if not (is_nil t.peers)
      then inr (record o { peers = t.peers; peer_list = [] })
      else if is_nil t.peer_list
      then inr o
      else elim (resolve t.peer_list) [
        | inl e ↦ inl (bad_url e)
        | inr url ↦ inr (record o { peer_list = url; peers = [] })
      ]

  -- The Thrift file of the template, relative to it.
  unfoldable pub template_thrift : Template R → RequestOptions → TemplateError ⊎ RequestOptions
  template_thrift t r = if is_nil t.thrift then inr r else elim (resolve_path t.thrift) [
    | inl e ↦ inl (bad_url e)
    | inr path ↦ inr (record r { thrift_file = path })
  ]

  -- The parameters that the template sets in the transport's options.
  unfoldable pub template_transport : Template R → TransportOptions → TransportOptions
  unfolding override_param
  template_transport t o = record o {
    jaeger = if t.jaeger then true else o.jaeger;
    force_jaeger_sample =
        if t.jaeger
        then (if t.force_jaeger_sample then true else o.force_jaeger_sample)
        else o.force_jaeger_sample;
    caller_name = override_param o.caller_name t.caller;
    service_name = override_param o.service_name t.service;
    shard_key = override_param o.shard_key t.shard_key;
    routing_key = override_param o.routing_key t.routing_key;
    routing_delegate = override_param o.routing_delegate t.routing_delegate;
  }

  -- Those that it sets in the request's options.
  unfoldable pub template_request : Template R → Text → RequestOptions → RequestOptions
  unfolding merge override_param
  template_request t body r = record r {
    headers = merge r.headers t.headers;
    baggage = merge r.baggage t.baggage;
    procedure = override_param r.procedure t.procedure;
    request_json = override_param r.request_json body;
    thrift_disable_envelopes = given_or t.disable_thrift_envelope r.thrift_disable_envelopes;
    timeout = if t.timeout == pos 0 then r.timeout else t.timeout;
  }

  -- `readYAMLRequest`, behind the decoding of the template
  unfoldable pub read_yaml_request : Template R → Options → TemplateError ⊎ Options
  unfolding get_yaml_request_body template_peers template_thrift template_transport template_request
  read_yaml_request t opts = elim (get_yaml_request_body t) [
    | inl e ↦ inl e
    | inr body ↦ elim (template_peers t opts.t_opts) [
      | inl e ↦ inl e
      | inr t_opts ↦ elim (template_thrift t opts.r_opts) [
        | inl e ↦ inl e
        | inr r_opts ↦ inr (record opts {
          t_opts = template_transport t t_opts;
          r_opts = template_request t body r_opts;
        })
      ]
    ]
  ]
