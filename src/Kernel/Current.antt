-- ===== src/Kernel/Current.antt =====
-- `get_settings` of app/settings.py: the settings with the values of the Register, or those of the
-- last Register that was applied for the same Kernel and token. A result is cached by the caller.
use perimetr.Prelude.{
  String, Bool, true, false, Option, none, some, ◌==◌, ◌!=◌, ◌&&◌, if◌then◌else◌,
}
use perimetr.Json.{Json}
use perimetr.Artifacts.{Try, returns, error, crash, ◌>>=◌, Reply}
use perimetr.Kernel.{Register, RegisterSettings}
use perimetr.Kernel.Snapshot.{load_snapshot}
use perimetr.Kernel.Apply.{apply_register}

-- `_last_register`: the address and the token of a Kernel, and the fields that its Register gave.
pub record LastRegister : Type 0 where
  pub url : String
  pub token : String
  pub fields : RegisterSettings

-- The cached snapshot, and the last Register.
pub record Memory : Type 0 where
  pub file : Option Json
  pub last : Option LastRegister

-- The fields of the Register, and `kernel_register_stale`.
pub record Effective : Type 0 where
  pub fields : RegisterSettings
  pub kernel_register_stale : Bool

abbrev pub is_of : String → String → LastRegister → Bool
is_of url token r = r.url == url && r.token == token

-- The `except` of a `KernelRegisterError`.
abbrev pub last_known : String → String → String → Option LastRegister → Try Effective
last_known text url token none = error text
last_known text url token (some r) =
    if is_of url token r
    then returns (record { fields = r.fields; kernel_register_stale = true })
    else error text

module _ (k : Register) (snapshot : String → String → Reply) (resolution : Reply) where
  -- `apply_register(settings)`, which loads the snapshot.
  unfoldable pub load_and_apply :
      String → String → Option Json → RegisterSettings → Option Json × Try RegisterSettings
  unfolding load_snapshot apply_register
  load_and_apply url token file base =
      let (file', loaded) = load_snapshot k snapshot url token false true file in
      (file', loaded >>= λ s. apply_register k resolution s base)

  abbrev pub remember :
      String → String → RegisterSettings → Option LastRegister → Option LastRegister
  remember url token fields last =
      if url != "" then some (record { url = url; token = token; fields = fields }) else last

  abbrev pub settled :
      String → String → Memory → Option Json × Try RegisterSettings → Memory × Try Effective
  settled url token m (file, returns fields) = (
    record { file = file; last = remember url token fields m.last },
    returns (record { fields = fields; kernel_register_stale = false }),
  )
  settled url token m (file, error text) =
      (record m { file = file }, last_known text url token m.last)
  settled url token m (file, crash text) = (record m { file = file }, crash text)

  -- `get_settings`, at the settings of the environment with the address and the token of the Kernel.
  unfoldable pub get_settings : String → String → RegisterSettings → Memory → Memory × Try Effective
  unfolding load_and_apply
  get_settings url token base m = settled url token m (load_and_apply url token m.file base)
