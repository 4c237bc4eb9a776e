-- ===== src/Config/Priority.antt =====
-- Which source a setting of the server comes from.
use mathlib.Core.Option.{none-ne-some, some-injective}
use gometrics.Prelude.{
  String, Bool, true, Option, none, some, get_or, ◌==◌, ◌≡◌, refl, sym, subst, arith, if◌then◌else◌,
  Bytes, All, ◌∷◌, [],
}
use gometrics.Models.{Int64}
use gometrics.Prelude.Dict
use gometrics.Config.{
  Flags, Env, text, number, boolean, Outside, load_file, explicit_flags, apply_if, apply_value,
  parse_store_interval, string_var, from_env, parsed_env, bool_var, int_var,
}
use gometrics.Config.Server.{
  Config, FileConfig, no_file, from_flags, lay_over, apply_file_config, apply_env, load_config_from,
  laid, env_set,
}

-- the first source that has the setting: environment, command line, file, default
abbrev pub strongest : {T : Type 0} → Option T → Option T → Option T → T → T
strongest env flag file default = get_or env (get_or flag (get_or file default))

-- an empty variable is no setting
abbrev pub set_var : String → Option String
set_var v = if v == "" then none else some v

-- a text that the command line gave for the flag
abbrev pub given_text : Flags → String → Option String
given_text fs name = elim (Dict.lookup name fs.given) [ some (text v) ↦ some v | _ ↦ none ]

-- `flag` accepts only texts for the flags that are texts
abbrev pub IsText : Flags → String → Type 0
IsText fs name = elim (Dict.lookup name fs.given) [
  | some (number n) ↦ ⊥
  | some (boolean b) ↦ ⊥
  | _ ↦ Unit
]

abbrev pub given_number : Flags → String → Option Int64
given_number fs name = elim (Dict.lookup name fs.given) [ some (number v) ↦ some v | _ ↦ none ]

abbrev pub given_bool : Flags → String → Option Bool
given_bool fs name = elim (Dict.lookup name fs.given) [ some (boolean v) ↦ some v | _ ↦ none ]

abbrev pub IsNumber : Flags → String → Type 0
IsNumber fs name = elim (Dict.lookup name fs.given) [
  | some (text n) ↦ ⊥
  | some (boolean b) ↦ ⊥
  | _ ↦ Unit
]

abbrev pub IsBoolean : Flags → String → Type 0
IsBoolean fs name = elim (Dict.lookup name fs.given) [
  | some (number n) ↦ ⊥
  | some (text b) ↦ ⊥
  | _ ↦ Unit
]

-- the flags of the server, by the type that `flag` parses them to
abbrev pub IsParsed : Flags → Type 0
IsParsed fs =
    All (IsText fs)
      ("a" ∷ "f" ∷ "d" ∷ "k" ∷ "crypto-key" ∷ "audit-file" ∷ "audit-url" ∷ "pprof-addr" ∷ [])
    × IsNumber fs "i"
    × IsBoolean fs "r"

abbrev parsed_by : {S T : Type 0} → (S → Option T) → Option S → Option (Option T)
parsed_by parse none = none
parsed_by parse (some v) = some (parse v)

text_setting :
    (fs : Flags) (name v : String) (file : Option String) (default : String)
    → IsText fs name
    → from_env v (apply_if (string_var fs name default) file (explicit_flags fs) name)
      ≡ strongest (set_var v) (given_text fs name) file default
unfolding from_env apply_if string_var explicit_flags
text_setting fs name v file default h = ground arith

bool_setting :
    (fs : Flags) (name v : String) (parse : String → Option Bool) (file : Option Bool)
    (default b : Bool)
    → IsBoolean fs name
    → parsed_env v parse (apply_if (bool_var fs name default) file (explicit_flags fs) name)
      ≡ some b
    → strongest
        (parsed_by parse (set_var v))
        (parsed_by some (given_bool fs name))
        (parsed_by some file)
        (some default)
      ≡ some b
unfolding parsed_env apply_if bool_var explicit_flags
bool_setting fs name v parse file default b h e = ground arith

number_setting :
    (fs : Flags) (name v : String) (atoi parse : String → Option Int64) (file : Option String)
    (default stored n : Int64)
    → IsNumber fs name
    → apply_value (int_var fs name default) file (explicit_flags fs) name parse ≡ some stored
    → parsed_env v atoi stored ≡ some n
    → strongest
        (parsed_by atoi (set_var v))
        (parsed_by some (given_number fs name))
        (parsed_by parse file)
        (some default)
      ≡ some n
unfolding parsed_env apply_value int_var explicit_flags
number_setting fs name v atoi parse file default stored n h e e' = ground arith

pub bound :
    {A B : Type 0} (o : Option A) (f : A → Option B) (b : B)
    → elim o [ none ↦ none | some a ↦ f a ] ≡ some b
    → (a : A) × (o ≡ some a) × (f a ≡ some b)
bound none f b e = absurd (none-ne-some b e)
bound (some a) f b e = (a, refl, e)

-- every setting comes from its strongest source
abbrev pub IsPrioritised : Outside → Flags → Env → FileConfig → Config → Type 0
IsPrioritised os fs env fc cfg =
    (cfg.addr ≡ strongest (set_var (env "ADDRESS")) (given_text fs "a") fc.address "localhost:8080")
    × (strongest (parsed_by os.atoi (set_var (env "STORE_INTERVAL")))
          (parsed_by some (given_number fs "i"))
          (parsed_by (parse_store_interval os) fc.store_interval) (some 300)
        ≡ some cfg.store_interval)
    × (cfg.file_path
        ≡ strongest (set_var (env "FILE_STORAGE_PATH")) (given_text fs "f") fc.store_file
            "metrics-store.json")
    × (strongest (parsed_by os.parse_bool (set_var (env "RESTORE")))
          (parsed_by some (given_bool fs "r")) (parsed_by some fc.restore) (some true)
        ≡ some cfg.restore)
    × (cfg.database_dsn
        ≡ strongest (set_var (env "DATABASE_DSN")) (given_text fs "d") fc.database_dsn "")
    × (cfg.key ≡ strongest (set_var (env "KEY")) (given_text fs "k") fc.key "")
    × (cfg.crypto_key
        ≡ strongest (set_var (env "CRYPTO_KEY")) (given_text fs "crypto-key") fc.crypto_key "")
    × (cfg.audit_file
        ≡ strongest (set_var (env "AUDIT_FILE")) (given_text fs "audit-file") fc.audit_file "")
    × (cfg.audit_url
        ≡ strongest (set_var (env "AUDIT_URL")) (given_text fs "audit-url") fc.audit_url "")
    × (cfg.pprof_addr
        ≡ strongest (set_var (env "PPROF_ADDR")) (given_text fs "pprof-addr") fc.pprof_addr "")

-- the path of the file: the variable CONFIG before the flag
abbrev pub path_of : Flags → Env → String
path_of fs env = get_or (set_var (env "CONFIG")) fs.path

module _ (os : Outside) (fs : Flags) (env : Env) (h : IsParsed fs) where
  settled :
      (path : String) (fc : FileConfig) (stored n : Int64) (b : Bool)
      → let flags = record (from_flags fs) { config_path = path } in
        let set = explicit_flags fs in
        apply_value flags.store_interval fc.store_interval set "i" (parse_store_interval os)
          ≡ some stored
        → parsed_env (env "STORE_INTERVAL") os.atoi stored ≡ some n
        → parsed_env (env "RESTORE") os.parse_bool (apply_if flags.restore fc.restore set "r")
          ≡ some b
        → IsPrioritised os fs env fc (env_set env (laid flags set fc stored) n b)
  unfolding laid env_set from_flags
  settled path fc stored n b e e' er =
      let ((ha, (hf, (hd, (hk, (hc, (hl, (hu, (hp, _)))))))), hi, hr) = h in
      (
        text_setting fs "a" (env "ADDRESS") fc.address "localhost:8080" ha,
        number_setting fs "i" (env "STORE_INTERVAL") os.atoi (parse_store_interval os)
            fc.store_interval 300 stored n hi e e',
        text_setting fs "f" (env "FILE_STORAGE_PATH") fc.store_file "metrics-store.json" hf,
        bool_setting fs "r" (env "RESTORE") os.parse_bool fc.restore true b hr er,
        text_setting fs "d" (env "DATABASE_DSN") fc.database_dsn "" hd,
        text_setting fs "k" (env "KEY") fc.key "" hk,
        text_setting fs "crypto-key" (env "CRYPTO_KEY") fc.crypto_key "" hc,
        text_setting fs "audit-file" (env "AUDIT_FILE") fc.audit_file "" hl,
        text_setting fs "audit-url" (env "AUDIT_URL") fc.audit_url "" hu,
        text_setting fs "pprof-addr" (env "PPROF_ADDR") fc.pprof_addr "" hp,
      )

  settings :
      (path : String) (fc : FileConfig) (mid cfg : Config)
      → lay_over os (record (from_flags fs) { config_path = path }) (explicit_flags fs) fc
        ≡ some mid
      → apply_env os env mid ≡ some cfg
      → IsPrioritised os fs env fc cfg
  unfolding lay_over apply_env laid
  settings path fc mid cfg laid_ok applied =
      let flags = record (from_flags fs) { config_path = path } in
      let set = explicit_flags fs in
      let (stored, e1, e2) =
        bound (apply_value flags.store_interval fc.store_interval set "i" (parse_store_interval os))
          (λ i. some (laid flags set fc i)) mid laid_ok in
      let at = laid flags set fc stored in
      let applied' =
        subst (λ m. apply_env os env m ≡ some cfg) (sym (some-injective _ _ e2)) applied in
      let (n, e3, e4) =
        bound (parsed_env (env "STORE_INTERVAL") os.atoi stored)
          (λ i. elim (parsed_env (env "RESTORE") os.parse_bool at.restore) [
            | none ↦ none
            | some restore ↦ some (env_set env at i restore)
          ])
          cfg applied' in
      let (b, e5, e6) =
        bound (parsed_env (env "RESTORE") os.parse_bool at.restore) (λ r. some (env_set env at n r))
          cfg e4 in
      subst (IsPrioritised os fs env fc) ((some-injective _ _ e6))
        (settled path fc stored n b e1 e3 e5)

  -- If the server's configuration loads, from flags that were parsed to their types, then its file was
  -- read and decoded (with no path, all its fields are nil), the variable CONFIG going before the flag
  -- for the path, and each of the ten settings is that of the first source that has it: a variable
  -- that is not empty, the flag if it was given, the file, the default. Values that need parsing
  -- were accepted by their parser.
  pub load_config_from-IsPrioritised :
      (unmarshal : Bytes → Option FileConfig) (cfg : Config)
      → load_config_from os unmarshal (some fs) env ≡ some cfg
      → (fc : FileConfig) × (load_file os unmarshal no_file (path_of fs env) ≡ some fc)
        × IsPrioritised os fs env fc cfg
  unfolding load_config_from apply_file_config from_env from_flags
  load_config_from-IsPrioritised unmarshal cfg e =
      let flags = from_flags fs in
      let path = from_env (env "CONFIG") fs.path in
      let start = record flags { config_path = path } in
      let (mid, e1, applied) =
        bound (apply_file_config os unmarshal start path (explicit_flags fs)) (apply_env os env) cfg
          e in
      let (fc, read, laid_ok) =
        bound (load_file os unmarshal no_file path) (lay_over os start (explicit_flags fs)) mid
          e1 in
      (
        fc,
        subst (λ p. load_file os unmarshal no_file p ≡ some fc) (ground arith) read,
        settings path fc mid cfg laid_ok applied,
      )
