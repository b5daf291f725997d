-- ===== src/Protocol/Translation.antt =====
-- `ProtocolMixin.trc` and `ProtocolMixin.trd` of spyne/protocol/_base.py: the translation of the name
-- of a class or of a member, and their verbose variants, which also compose a line of the log.
use spyne.Prelude.{◌≡◌, refl, String, string_eq, Option, none, some, arith}
use spyne.Prelude.Dict
use spyne.Prelude.Dict.{Dict}

-- DEFAULT_LOCALE of spyne/const/__init__.py
abbrev pub default_locale : String
default_locale = "en_US"

-- A dictionary of translations: None, one string for all locales, or one for each.
pub data TrDict : Type 0 where
  no_translation : TrDict
  fixed : String → TrDict
  table : Dict String String → TrDict

-- What a verbose variant returns, and the two parts of the line that it logs.
pub record Logged : Type 0 where
  pub retval : String
  pub log_tr : String
  pub log_locale : String

abbrev or_default : Option String → String → String
or_default none default = default
or_default (some s) default = s

abbrev or_locale : Option String → String
or_locale locale = or_default locale default_locale

unfoldable pub trc : Option (Dict String String) → Option String → String → String
trc none locale default = default
trc (some translations) locale default =
    or_default (Dict.get translations (or_locale locale)) default

unfoldable pub trd : TrDict → Option String → String → String
trd no_translation locale default = default
trd (fixed s) locale default = s
trd (table trdict) locale default = or_default (Dict.get trdict (or_locale locale)) default

abbrev log_of : Option String → String
log_of none = "default locale '%s'"
log_of (some s) = "given locale '%s'"

-- the value found, or `_MISSING`
abbrev found : Option String → Option String → String → Logged
found none locale default = record {
  retval = default;
  log_tr = "translated to '%s': No translation for";
  log_locale = log_of locale;
}
found (some s) locale default = record {
  retval = s;
  log_tr = "translated to '%s' with";
  log_locale = log_of locale;
}

abbrev untranslated : Option String → String → Logged
untranslated locale default = record {
  retval = default;
  log_tr = "translated to '%s' without any translations at all with";
  log_locale = log_of locale;
}

unfoldable pub trc_verbose : Option (Dict String String) → Option String → String → Logged
trc_verbose none locale default = untranslated locale default
trc_verbose (some translations) locale default =
    found (Dict.get translations (or_locale locale)) locale default

unfoldable pub trd_verbose : TrDict → Option String → String → Logged
trd_verbose no_translation locale default = untranslated locale default
trd_verbose (fixed s) locale default = record {
  retval = s;
  log_tr = "translated to '%s' regardless of";
  log_locale = log_of locale;
}
trd_verbose (table trdict) locale default =
    found (Dict.get trdict (or_locale locale)) locale default

-- The verbose variant of `trc` translates as `trc` does.
pub trc_verbose_lem :
    (translations : Option (Dict String String)) (locale : Option String) (default : String)
    → (trc_verbose translations locale default).retval ≡ trc translations locale default
unfolding trc_verbose trc
trc_verbose_lem none locale default = refl
trc_verbose_lem (some t) locale default = ground arith

-- The verbose variant of `trd` translates as `trd` does.
pub trd_verbose_lem :
    (trdict : TrDict) (locale : Option String) (default : String)
    → (trd_verbose trdict locale default).retval ≡ trd trdict locale default
unfolding trd_verbose trd
trd_verbose_lem no_translation locale default = refl
trd_verbose_lem (fixed s) locale default = refl
trd_verbose_lem (table t) locale default = ground arith
