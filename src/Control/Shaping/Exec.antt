-- ===== src/Control/Shaping/Exec.antt =====
-- The commands that main.go runs through os/exec, with what becomes of them: a monad over the list
-- of the commands so far. `none` stands for a returned error.
use gerbil.Prelude.{Bool, Option, none, some, List, ◌∷◌, Text}

abbrev pub Command : Type 0
Command = List Text

pub record Output : Type 0 where
  pub printed : Text
  pub succeeded : Bool

-- What a command does, after the given commands.
abbrev pub Answers : Type 0
Answers = List Command → Command → Output

abbrev pub Shell : Type 0 → Type 0
Shell A = Answers → List Command → List Command × Option A

abbrev continue :
    {A B : Type 0} → (A → Shell B) → Answers → List Command × Option A → List Command × Option B
continue f answers (ran, none) = (ran, none)
continue f answers (ran, some a) = f a answers ran

infixl 5 ◌>>=◌ ◌>>◌
abbrev pub ◌>>=◌ : {A B : Type 0} → Shell A → (A → Shell B) → Shell B
◌>>=◌ m f answers ran = continue f answers (m answers ran)

abbrev pub ◌>>◌ : {A B : Type 0} → Shell A → Shell B → Shell B
m >> k = m >>= λ _. k

abbrev pub return : {A : Type 0} → A → Shell A
return a answers ran = (ran, some a)

abbrev pub abort : {A : Type 0} → Shell A
abort answers ran = (ran, none)

unfoldable pub run : Command → Shell Output
run command answers ran = (command ∷ ran, some (answers ran command))
