-- ===== src/Main/Flags.antt =====
-- main.go: the options of a run, from the defaults, a template, the flags and the positional arguments.
--
-- The parser of flags, the file system and the reading of a template are parameters; `parse` gives the
-- options and the arguments that are no flags.
pub mod Given
use yab.Prelude.{
  ℕ, Bool, true, false, ◌&&◌, ◌||◌, List, [], ◌∷◌, Option, none, some, ◌⊎◌, inl, inr, Text, codes,
  ◌==◌, text_comparable, if◌then◌else◌, is_nil, get_elem?,
}
use yab.Prelude.Assoc.{Assoc}
use yab.Options.{RequestOptions, TransportOptions, Options, set_encoding_options}

-- `fromPositional`: the value of the field behind it, and whether there is such an argument.
abbrev pub given_or : Option Text → Text → Text × Bool
given_or none s = (s, false)
given_or (some []) s = (s, true)
given_or (some (c ∷ cs)) s = (c ∷ cs, true)

unfoldable pub from_positional : List Text → ℕ → Text → Text × Bool
from_positional args index s = given_or (get_elem? args index) s

-- The end of `getOptions`: the arguments that are no flags.
abbrev pub with_request : List Text → RequestOptions → Text × Bool → RequestOptions
with_request remaining r (json, true) = record r {
  request_json = json;
  headers_json = (from_positional remaining 2 r.headers_json).0;
}
with_request remaining r (json, false) = record r {
  request_json = (from_positional remaining 2 r.request_json).0;
}

unfoldable pub positional : List Text → Options → Options
unfolding from_positional
positional remaining o =
    let r = record o.r_opts { procedure = (from_positional remaining 1 o.r_opts.procedure).0 } in
    record o {
      t_opts = record o.t_opts {
        service_name = (from_positional remaining 0 o.t_opts.service_name).0;
      };
      r_opts = with_request remaining r (from_positional remaining 3 r.request_json);
    }

-- `strings.HasSuffix` and `isYabTemplate`
unfoldable pub has_suffix : Text → Text → Bool
has_suffix [] suffix = is_nil suffix
has_suffix (c ∷ s) suffix = let rest = has_suffix s suffix in (c ∷ s) == suffix || rest

unfoldable pub is_yab_template : (Text → Bool) → Text → Bool
unfolding has_suffix
is_yab_template exists s = has_suffix s (codes ".yab") && exists s

-- The arguments that are parsed: a template at their beginning becomes that of the flag.
unfoldable pub shebang_args : (Text → Bool) → List Text → List Text
unfolding is_yab_template
shebang_args exists [] = []
shebang_args exists (a ∷ args) =
    if is_yab_template exists a then codes "-y" ∷ a ∷ args else a ∷ args

-- `findBestConfigFile`: the first of the paths that exists, or an empty text.
unfoldable pub find_best_config_file : (Text → Bool) → List Text → Text
find_best_config_file exists [] = []
find_best_config_file exists (p ∷ paths) =
    let rest = find_best_config_file exists paths in if exists p then p else rest

-- `overrideDefaults`, with what the flags alone give, and the reading of a template.
abbrev pub clear_peers : TransportOptions → Options → Options
clear_peers args_only d =
    let t = if is_nil args_only.peers then d.t_opts else record d.t_opts { peer_list = [] } in
    record d { t_opts = if is_nil args_only.peer_list then t else record t { peers = [] } }

abbrev pub cleared : TransportOptions → Text ⊎ Options → Text ⊎ Options
cleared args_only (inl e) = inl e
cleared args_only (inr d) = inr (clear_peers args_only d)

unfoldable pub override_defaults :
    (Text → Assoc Text Text → Options → Text ⊎ Options) → Options → Options → Text ⊎ Options
override_defaults read_yaml_file args_only defaults = cleared args_only.t_opts (
    if is_nil args_only.r_opts.yaml_template
    then inr defaults
    else read_yaml_file args_only.r_opts.yaml_template args_only.r_opts.template_args defaults)

-- What `getOptions` gives; `clean_exit` is `errExit`, for help, the version and the manual page.
pub data GetOptions : Type 0 where
  clean_exit : GetOptions
  bad_defaults bad_template bad_flags : Text → GetOptions
  options : Options → GetOptions

-- What parsing the flags gives.
pub data ParsedArgs : Type 0 where
  help : ParsedArgs
  not_parsed : Text → ParsedArgs
  parsed : List Text → Options → ParsedArgs

abbrev pub with_encoding : Options → Options
with_encoding o = record o { r_opts = set_encoding_options o.r_opts }

-- `getOptions` behind the parsing; `some_args` says that there is an argument.
abbrev pub of_parsed : Bool → ParsedArgs → GetOptions
of_parsed false p = clean_exit
of_parsed true help = clean_exit
of_parsed true (not_parsed e) = bad_flags e
of_parsed true (parsed remaining o) =
    if o.display_version
    then clean_exit
    else if o.man_page
    then clean_exit
    else options (positional remaining (with_encoding o))

abbrev pub of_overridden : (Options → ParsedArgs) → Bool → Text ⊎ Options → GetOptions
of_overridden parse some_args (inl e) = bad_template e
of_overridden parse some_args (inr d) = of_parsed some_args (parse d)

-- `getOptions`, for the arguments behind `shebang_args`, with the error of reading the defaults.
unfoldable pub get_options :
    (Text → Assoc Text Text → Options → Text ⊎ Options)
    → (Options → ParsedArgs)
    → Bool
    → Option Text
    → Options
    → Options
    → GetOptions
unfolding override_defaults positional set_encoding_options
get_options read_yaml_file parse some_args (some e) args_only defaults = bad_defaults e
get_options read_yaml_file parse some_args none args_only defaults =
    of_overridden parse some_args (override_defaults read_yaml_file args_only defaults)
