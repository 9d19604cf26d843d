-- ===== src/Manager/Token/Kept.antt =====
-- When loadControlToken of manager/auth.go returns, and that it returns the same token again.
use target_lib.Base.{
  ◌≡◌, refl, sym, ap, ◌∙◌, subst, ℕ, zero, suc, Bool, true, false, Option, none, some, Text, [],
  ◌∷◌, ◌++◌, is_empty, trim_space, if◌then◌else◌, ◌↔◌,
}
use target_lib.Subscriptions.Maps.{some-injective}
use target_lib.Manager.Access.{validate_token}
use target_lib.Manager.Token.{
  Entry, missing, dangling, file, Machinery, Loaded, written, created, generated, read, load_stored,
  load_control_token,
}

abbrev pub is_dangling : Entry → Bool
is_dangling dangling = true
is_dangling (file content) = false
is_dangling missing = false

not-some {ℓ} : {A : Type ℓ} {a : A} → none ≡ some a → true ≡ false
not-some h = cc

module _ (H : Machinery) where
  valid_written : (call : ℕ) → validate_token (H.encoded call ++ 10 ∷ []) ≡ some (H.encoded call)
  unfolding validate_token
  valid_written call = rw (H.encoded-trimmed call, H.encoded-len call) refl

  -- A path is given, with no white space around it, and no call fails but for the last.
  pub record Works (base_path : Text) : Type 0 where
    pub trimmed : trim_space base_path ≡ base_path
    pub path : is_empty base_path ≡ false
    pub mkdir : H.mkdir_fails ≡ false
    pub reads : H.read_fails ≡ false
    pub rand : H.rand_fails ≡ false
    pub opens : H.open_fails ≡ false

  module _ (base_path : Text) (k : Works base_path) where
    load_stored-read :
        (calls call : ℕ) (e : Entry)
        → load_stored H (suc calls) call base_path e
          ≡ read H call e false (load_stored H calls (suc call) base_path e)
    unfolding load_stored
    load_stored-read calls call e =
        ap
          (λ p.
            if is_empty p
            then some (e, none)
            else if H.mkdir_fails
            then some (e, none)
            else read H call e H.read_fails (load_stored H calls (suc call) p e))
          k.trimmed
        ∙ ap
            (λ b.
              if b
              then some (e, none)
              else if H.mkdir_fails
              then some (e, none)
              else read H call e H.read_fails (load_stored H calls (suc call) base_path e))
            k.path
        ∙ ap
            (λ b.
              if b
              then some (e, none)
              else read H call e H.read_fails (load_stored H calls (suc call) base_path e))
            k.mkdir
        ∙ ap (λ b. read H call e b (load_stored H calls (suc call) base_path e)) k.reads

    generated-created :
        (call : ℕ) (e : Entry) (again : Option (Loaded H))
        → generated H call e again ≡ created H call e false again
    generated-created call e again =
        ap (λ b. if b then some (e, none) else created H call e H.open_fails again) k.rand
        ∙ ap (λ b. created H call e b again) k.opens

    -- With a link to nothing each call makes another one.
    never : (calls call : ℕ) → load_stored H calls call base_path dangling ≡ none
    unfolding load_stored
    never zero call = refl
    never (suc calls) call =
        load_stored-read calls call dangling
        ∙ generated-created call dangling (load_stored H calls (suc call) base_path dangling)
        ∙ never calls (suc call)

    missing_written :
        (calls call : ℕ)
        → load_stored H (suc calls) call base_path missing ≡ some (written H call H.write_fails)
    missing_written calls call =
        load_stored-read calls call missing ∙ generated-created call missing _

    file_read :
        (calls call : ℕ) (content : Text)
        → load_stored H (suc calls) call base_path (file content)
          ≡ some (file content, validate_token content)
    file_read calls call content = load_stored-read calls call (file content)

    -- A path is given, with no white space around it, and no call fails but for the last, which
    -- writes. Then without a supplied token loadControlToken returns exactly if the token's file is
    -- not a link to nothing.
    pub load_control_token_returns :
        (call : ℕ) (e : Entry)
        → ((calls : ℕ) × (r : Loaded H) × (load_control_token H calls call base_path [] e ≡ some r))
          ↔ (is_dangling e ≡ false)
    unfolding load_control_token
    load_control_token_returns call missing = ((λ h. refl), λ h. (0, _, missing_written 0 call))
    load_control_token_returns call (file content) =
        ((λ h. refl), λ h. (0, _, file_read 0 call content))
    load_control_token_returns call dangling =
        (λ p. not-some (sym (never (suc p.0) call) ∙ p.2), λ h. cc)

    stays :
        (after : Entry) (token content : Text)
        → file content ≡ after
        → validate_token content ≡ some token
        → (more later : ℕ)
        → load_control_token H more later base_path [] after ≡ some (after, some token)
    unfolding load_control_token
    stays after token content e v more later =
        subst (λ a. load_stored H (suc more) later base_path a ≡ some (a, some token)) e
          (file_read more later content ∙ ap (λ t. some (file content, t)) v)

    taken :
        (call : ℕ) (b : Bool) {after : Entry} {token : Text}
        → some (written H call b) ≡ some (after, some token)
        → (file (H.encoded call ++ 10 ∷ []) ≡ after) × (H.encoded call ≡ token)
    taken call true h = cc
    taken call false h =
        let e = some-injective h in (ap (λ r. r.0) e, some-injective (ap (λ r. r.1) e))

    -- A path is given, with no white space around it, and no call fails but for the last, which
    -- writes. Then if loadControlToken returns a token without a supplied one, it returns this token
    -- from then on, whatever crypto/rand gives later, and leaves the file as it is.
    pub load_control_token-kept :
        (calls call : ℕ) (e after : Entry) (token : Text)
        → load_control_token H calls call base_path [] e ≡ some (after, some token)
        → (more later : ℕ)
        → load_control_token H more later base_path [] after ≡ some (after, some token)
    unfolding load_control_token
    load_control_token-kept calls call missing after token h more later =
        let (there, same) = taken call H.write_fails (sym (missing_written calls call) ∙ h) in
        stays after token _ there (valid_written call ∙ ap some same) more later
    load_control_token-kept calls call (file content) after token h more later =
        let e = some-injective (sym (file_read calls call content) ∙ h) in
        stays after token content (ap (λ r. r.0) e) (ap (λ r. r.1) e) more later
    load_control_token-kept calls call dangling after token h more later =
        let impossible = not-some (sym (never (suc calls) call) ∙ h) in cc
