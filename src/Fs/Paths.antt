-- ===== src/Fs/Paths.antt =====
-- skipelem of fs.c. A path is the characters in front of its NUL, and so is a name, which has at most DIRSIZ.
use project4final.Prelude.{ℕ, List, ◌∷◌, Option, if◌then◌else◌, ◌==◌, [], none, some, take}

abbrev pub dirsiz : ℕ
dirsiz = 14

-- `while(*path == '/') path++;`
unfoldable pub skip_slashes : List ℕ → List ℕ
skip_slashes [] = []
skip_slashes (c ∷ path) = if c == b'/' then skip_slashes path else c ∷ path

-- The characters up to a slash or the end, and the path from there on.
unfoldable pub element : List ℕ → List ℕ
element [] = []
element (c ∷ path) = let rest : List ℕ = element path in if c == b'/' then [] else c ∷ rest

unfoldable pub behind_element : List ℕ → List ℕ
behind_element [] = []
behind_element (c ∷ path) = if c == b'/' then c ∷ path else behind_element path

-- The name and the rest of the path, with no slash at its front.
unfoldable pub skipelem : List ℕ → Option (List ℕ × List ℕ)
unfolding skip_slashes element behind_element
skipelem path = elim (skip_slashes path) [
  | [] ↦ none
  | c ∷ p ↦ some (take dirsiz (element (c ∷ p)), skip_slashes (behind_element (c ∷ p)))
]
