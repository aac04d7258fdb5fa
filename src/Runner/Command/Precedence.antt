-- ===== src/Runner/Command/Precedence.antt =====
-- Which value a variable has in the environment that `buildEnv` gives to a process. Where a variable
-- is listed twice, `os/exec` passes on the last entry.
use process_deck.Base.{
  ◌≡◌, refl, ap, ap₂, ◌∙◌, sym, false, List, [], ◌∷◌, ◌++◌, Option, none, some, map, append-nil,
  append_assoc, if◌then◌else◌, arith, inl, inr,
}
use process_deck.Base.Result.{ok, Result-cases, >>=-eq-ok}
use process_deck.Base.Text.{
  Text, same, same_iff, same_sym, same_self, member, sort, member-sort, AllIn,
}
use process_deck.Base.GoStrings.{cut, cut-append, contains_char}
use process_deck.EnvFile.{read_env_file, resolve_env_file_path}
use process_deck.Runner.Command.{Host, value_at, add_env_files, explicit_env, build_env}

-- The value that an entry `key=value` sets.
abbrev pub sets : Text → Text → Option Text
sets key entry = elim (cut entry b'=') [
  | none ↦ none
  | some (k, v) ↦ if same k key then some v else none
]

abbrev pub or_else : Option Text → Option Text → Option Text
or_else (some v) other = some v
or_else none other = other

-- The value of `key` in an environment.
pub value_of : Text → List Text → Option Text
value_of key [] = none
value_of key (entry ∷ entries) = or_else (value_of key entries) (sets key entry)

abbrev pub keys : List (Text × Text) → List Text
keys env = map (λ (k, v). k) env

-- The value that the configuration sets.
abbrev pub explicit : List (Text × Text) → Text → Option Text
explicit env key = if member key (keys env) then some (value_at env key) else none

-- The entries of the environment files, from first to last.
pub data FilesRead (host : Host) (cwd : Text) : List Text → List Text → Type 0 where
  nothing : FilesRead host cwd [] []
  more :
      {path : Text} {paths entries rest : List Text}
      → read_env_file host.unquote host.read (resolve_env_file_path host.is_abs host.join cwd path)
        ≡ ok entries
      → FilesRead host cwd paths rest
      → FilesRead host cwd (path ∷ paths) (entries ++ rest)

or_else_assoc : (a b c : Option Text) → or_else (or_else a b) c ≡ or_else a (or_else b c)
or_else_assoc none b c = refl
or_else_assoc (some v) b c = refl

value_of-append :
    (key : Text) (xs ys : List Text)
    → value_of key (xs ++ ys) ≡ or_else (value_of key ys) (value_of key xs)
unfolding value_of
value_of-append key [] ys = ground (arith)
value_of-append key (x ∷ xs) ys =
    ap (λ o. or_else o (sets key x)) (value_of-append key xs ys)
    ∙ or_else_assoc (value_of key ys) (value_of key xs) (sets key x)

value_of-map :
    (key : Text) (env : List (Text × Text)) (names : List Text)
    → AllIn (λ k. contains_char k b'=' ≡ false) names
    → value_of key (map (λ k. k ++ b'=' ∷ value_at env k) names)
      ≡ (if member key names then some (value_at env key) else none)
unfolding value_of member
value_of-map key env [] plain = refl
value_of-map key env (name ∷ names) plain = ground (
  arith,
  same_iff name key,
  same_sym name key,
  cut-append name (value_at env name) b'=' (plain name (ground (arith, same_self name))),
  value_of-map key env names (λ k m. plain k (ground arith)),
)

value_of-explicit_env :
    (key : Text) (env : List (Text × Text))
    → AllIn (λ k. contains_char k b'=' ≡ false) (keys env)
    → value_of key (explicit_env env) ≡ explicit env key
unfolding explicit_env
value_of-explicit_env key env plain =
    value_of-map key env (sort (keys env)) (λ k m. plain k (sym (member-sort k (keys env)) ∙ m))
    ∙ ap (λ b. if b then some (value_at env key) else none) (member-sort key (keys env))

add_env_files-FilesRead :
    (host : Host) (cwd : Text) (paths values : List Text) {final : List Text}
    → add_env_files host cwd paths values ≡ ok final
    → (entries : List Text) × FilesRead host cwd paths entries × (final ≡ values ++ entries)
unfolding add_env_files
add_env_files-FilesRead host cwd [] values h = ([], nothing, ground (arith, append-nil values))
add_env_files-FilesRead host cwd (path ∷ paths) values h =
    elim (Result-cases (
      read_env_file host.unquote host.read
        (resolve_env_file_path host.is_abs host.join cwd path))) [
          | inl (e, failed) ↦ absurd (ground arith)
          | inr (entries, found) ↦
              let (rest, files, eq) =
                add_env_files-FilesRead host cwd paths (values ++ entries) (ground arith) in
              (entries ++ rest, more found files, eq ∙ append_assoc values entries rest)
        ]

build_env-append :
    (host : Host) (cwd : Text) (env_files : List Text) (env : List (Text × Text))
    {values : List Text}
    → build_env host cwd env_files env ≡ ok values
    → (inherited : List Text) × (add_env_files host cwd env_files host.environ ≡ ok inherited)
      × (values ≡ inherited ++ explicit_env env)
unfolding build_env explicit_env sort
build_env-append host cwd env_files [] h =
    let (inherited, read, last) = >>=-eq-ok (add_env_files host cwd env_files host.environ) _ h in
    (inherited, read, ground (arith, append-nil inherited))
build_env-append host cwd env_files (v ∷ vs) h =
    let (inherited, read, last) = >>=-eq-ok (add_env_files host cwd env_files host.environ) _ h in
    (inherited, read, cc)

-- A variable of the configuration wins over the environment files, of which the last to set a variable
-- wins, and these over the environment that the program itself was given.
pub build_env-value_of :
    (host : Host) (cwd : Text) (env_files : List Text) (env : List (Text × Text))
    {values : List Text}
    → AllIn (λ k. contains_char k b'=' ≡ false) (keys env)
    → build_env host cwd env_files env ≡ ok values
    → (entries : List Text) × FilesRead host cwd env_files entries
      × ((key : Text)
          → value_of key values
            ≡ or_else
                (explicit env key)
                (or_else (value_of key entries) (value_of key host.environ)))
build_env-value_of host cwd env_files env {values} plain h =
    let (inherited, read, whole) = build_env-append host cwd env_files env h in
    let (entries, files, eq) = add_env_files-FilesRead host cwd env_files host.environ read in
    (
      entries,
      files,
      λ key.
          ap (value_of key) (whole ∙ ap (λ l. l ++ explicit_env env) eq)
          ∙ value_of-append key (host.environ ++ entries) (explicit_env env)
          ∙ ap₂ or_else (value_of-explicit_env key env plain)
              (value_of-append key host.environ entries),
    )
