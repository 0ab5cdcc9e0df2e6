-- ===== src/Sandbox/Path.antt =====
-- `_abs`, `_real` and `_is_under` of core/sandbox.py, with what they use of os.path and pathlib on a
-- POSIX host.
pub mod Laws
use Prim.Native.String.{◌++◌}
use agentwire_cue.Prelude.{
  String, Char, Bool, true, false, not, ◌&&◌, ◌||◌, Option, none, some, List, [], ◌∷◌, ◌==◌,
  if◌then◌else◌,
}
use agentwire_cue.Expression.Lexer.{is_char}
use agentwire_cue.Expression.Template.{prepend}

-- The surroundings of the process.
pub record FileSystem : Type 0 where
  pub expanduser : String → String
  -- os.getcwd(), an absolute path
  pub cwd : String
  -- os.path.realpath, which follows symbolic links
  pub realpath : String → String

-- An absolute pathlib.Path: whether its root is "//" and not "/", and its components.
pub record PurePath : Type 0 where
  pub double_root : Bool
  pub parts : List String

-- s.split("/")
unfoldable pub split_slashes : String → List String
unfolding prepend
split_slashes String.[] = String.[] ∷ []
split_slashes (String.◌∷◌ c s) =
    let rest = split_slashes s in if is_char b'/' c then String.[] ∷ rest else prepend c rest

-- One component of os.path.normpath's loop on an absolute path; the components so far are in reverse.
unfoldable pub normalize_step : List String → String → List String
normalize_step [] c = if c == "" || c == "." || c == ".." then [] else c ∷ []
normalize_step (d ∷ ds) c =
    if c == "" || c == "." then d ∷ ds else if c == ".." then ds else c ∷ d ∷ ds

unfoldable pub reverse_onto : List String → List String → List String
reverse_onto [] ds = ds
reverse_onto (c ∷ cs) ds = reverse_onto cs (c ∷ ds)

unfoldable pub normalize : List String → List String → List String
unfolding normalize_step reverse_onto
normalize ds [] = reverse_onto ds []
normalize ds (c ∷ cs) = normalize (normalize_step ds c) cs

-- Exactly two slashes at the front are a root of their own.
unfoldable pub has_double_root : String → Bool
has_double_root (String.◌∷◌ a (String.◌∷◌ b String.[])) = is_char b'/' a && is_char b'/' b
has_double_root (String.◌∷◌ a (String.◌∷◌ b (String.◌∷◌ c s))) =
    is_char b'/' a && is_char b'/' b && not (is_char b'/' c)
has_double_root s = false

-- PurePath(os.path.normpath(s)), for an absolute path
unfoldable pub path_of : String → PurePath
unfolding split_slashes normalize has_double_root
path_of s = record { double_root = has_double_root s; parts = normalize [] (split_slashes s) }

-- os.path.isabs
unfoldable pub is_abs : String → Bool
is_abs String.[] = false
is_abs (String.◌∷◌ c s) = is_char b'/' c

unfoldable pub ends_in_slash : String → Bool
ends_in_slash String.[] = false
ends_in_slash (String.◌∷◌ c String.[]) = is_char b'/' c
ends_in_slash (String.◌∷◌ c (String.◌∷◌ d s)) = ends_in_slash (String.◌∷◌ d s)

-- os.path.join(cwd, s), for a relative path
unfoldable pub join : String → String → String
unfolding ends_in_slash
join front s = if front == "" || ends_in_slash front then front ++ s else front ++ "/" ++ s

unfoldable pub abs : FileSystem → String → PurePath
unfolding path_of is_abs join
abs fs p = let s = fs.expanduser p in if is_abs s then path_of s else path_of (join fs.cwd s)

unfoldable pub real : FileSystem → String → PurePath
unfolding path_of
real fs p = path_of (fs.realpath (fs.expanduser p))

-- `parts` begins with `front`.
unfoldable pub starts_with : List String → List String → Bool
starts_with [] parts = true
starts_with (c ∷ front) [] = false
starts_with (c ∷ front) (d ∷ parts) = c == d && starts_with front parts

abbrev pub same_root : Bool → Bool → Bool
same_root true b = b
same_root false b = not b

-- child.relative_to(parent) raises no ValueError
unfoldable pub is_under : PurePath → PurePath → Bool
unfolding starts_with
is_under child parent =
    same_root child.double_root parent.double_root && starts_with parent.parts child.parts
