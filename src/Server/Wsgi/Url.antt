-- ===== src/Server/Wsgi/Url.antt =====
-- spyne/server/wsgi.py: `_reconstruct_url` and `is_wsdl_request`, which read the environment of a
-- request. The functions on text of the standard library are parameters.
use Prim.Native.String.{◌++◌ as ◌+s+◌}
use text.Mathlib.Text.{◌==◌ as str_eq, starts_with}
use spyne.Prelude.{
  nat_eq, Bool, true, false, not, String, string_eq, Option, none, some, if◌then◌else◌,
}
use spyne.Prelude.Dict
use spyne.Prelude.Dict.{Dict}
use spyne.Prelude.Exec.{Exec, Result, ok, err, pure, raise, ◌>>=◌}
use spyne.Fault.{Exn, other}

-- `quote`, `upper`, `lower`, `s.split(sep)[0]` and `s.endswith('.wsdl')`
pub record Texts : Type 0 where
  pub quote : String → String
  pub upper : String → String
  pub lower : String → String
  pub before : String → String → String
  pub ends_with_wsdl : String → Bool

abbrev pub Environ : Type 0
Environ = Dict String String

abbrev or_key_error : Option String → Result Exn String
or_key_error none = err (other "KeyError")
or_key_error (some v) = ok v

abbrev or_default : Option String → String → String
or_default none default = default
or_default (some v) default = v

-- code that reads the environment and may raise
abbrev pub Reader : Type 0 → Type 0
Reader A = Exec Environ Exn A

-- `environ[key]`
abbrev pub item : String → Reader String
item key environ = (or_key_error (Dict.get environ key), environ)

-- `environ.get(key, default)`
abbrev pub item_or : String → String → Reader String
item_or key default environ = (ok (or_default (Dict.get environ key) default), environ)

-- `s[1:]`, and `s[0] == '/'`, which raises IndexError on the empty text
abbrev rest_of : String → String
rest_of String.[] = ""
rest_of (String.◌∷◌ c s) = s

abbrev begins_with_slash : String → Reader Bool
begins_with_slash s = if str_eq s "" then raise (other "IndexError") else pure (starts_with s "/")

module _ (texts : Texts) where
  -- the host and, unless it is the default one, the port
  abbrev host_part : Reader String
  host_part = do
    http_host ← item_or "HTTP_HOST" ""
    if not (str_eq http_host "") then pure http_host else (do
      server_name ← item "SERVER_NAME"
      url_scheme ← item "wsgi.url_scheme"
      server_port ← item "SERVER_PORT"
      let default_port = if str_eq url_scheme "https" then "443" else "80"
      pure (
          if str_eq server_port default_port
          then server_name
          else server_name +s+ (":" +s+ server_port)))

  abbrev script_part : String → Bool → String
  script_part script skip =
      if skip then "" else if starts_with script "//" then rest_of script else script

  abbrev path_part : Reader String
  path_part = do
    script_name ← item_or "SCRIPT_NAME" ""
    path_info ← item_or "PATH_INFO" ""
    let script = texts.quote script_name
    let path' = texts.quote path_info
    skip ← if str_eq script "/" then begins_with_slash path' else pure false
    pure (script_part script skip +s+ path')

  abbrev query_part : Reader String
  query_part = do
    query_string ← item_or "QUERY_STRING" ""
    pure (if str_eq query_string "" then "" else "?" +s+ query_string)

  -- `_reconstruct_url` with its default arguments
  unfoldable pub reconstruct_url : Reader String
  reconstruct_url = do
    url_scheme ← item "wsgi.url_scheme"
    host ← host_part
    path' ← path_part
    query ← query_part
    pure (url_scheme +s+ ("://" +s+ (host +s+ (path' +s+ query))))

  -- the second half of the test of `is_wsdl_request`
  abbrev names_wsdl : Option String → Reader Bool
  names_wsdl none = do path' ← item "PATH_INFO"; pure (texts.ends_with_wsdl path')
  names_wsdl (some query) =
      if str_eq (texts.lower (texts.before query "=")) "wsdl"
      then pure true
      else (do path' ← item "PATH_INFO"; pure (texts.ends_with_wsdl path'))

  unfoldable pub is_wsdl_request : Reader Bool
  is_wsdl_request environ =
      (do
        verb ← item "REQUEST_METHOD"
        (if str_eq (texts.upper verb) "GET"
            then names_wsdl (Dict.get environ "QUERY_STRING")
            else pure false))
        environ
