-- ===== src/Nickname.antt =====
-- server/src/utils/Nickname.hpp and Nickname.cpp: a random nickname of three words.
-- The engine and its distributions are the standard library's: a parameter.
pub mod Words
use canchat.Base.{
  get_elem?, ℕ, suc, ◌-◌, ◌≤◌, ◌<◌, String, str_append, Option, none, some, List, [], ◌∷◌, length,
  arith, ◌≡◌, refl,
}

abbrev pub avatars_size : ℕ
avatars_size = 70

abbrev pub adjectives_size : ℕ
adjectives_size = 103

abbrev pub nouns_size : ℕ
nouns_size = 49

unfoldable pub avatars : List String
avatars =
    "⚽" ∷ "⛄" ∷ "🏖" ∷ "⛵" ∷ "⛺" ∷ "🌀" ∷ "🌭" ∷ "🌲" ∷ "🌵" ∷ "🌶" ∷ "🌺" ∷ "🌻" ∷ "🍀" ∷ "🍄" ∷ "🍕" ∷ "🍭"
    ∷ "🎃" ∷ "🎾" ∷ "🐉" ∷ "🐌" ∷ "🐛" ∷ "🐠" ∷ "🐿" ∷ "🔮" ∷ "🗿" ∷ "🚌" ∷ "🤡" ∷ "🥐" ∷ "🦂" ∷ "🦄" ∷ "🦅" ∷ "🦉"
    ∷ "🦋" ∷ "🦍" ∷ "🦑" ∷ "🦁" ∷ "⛰" ∷ "⛲" ∷ "🌂" ∷ "🎷" ∷ "🌋" ∷ "🌮" ∷ "🌴" ∷ "🍁" ∷ "🍆" ∷ "🍔" ∷ "🍡" ∷ "🍰"
    ∷ "🎅" ∷ "🎈" ∷ "🎭" ∷ "🎲" ∷ "🎸" ∷ "🎺" ∷ "🎻" ∷ "🏀" ∷ "🏂" ∷ "🏈" ∷ "🏉" ∷ "🏓" ∷ "🏹" ∷ "🏺" ∷ "🐈" ∷ "🐋"
    ∷ "🐚" ∷ "🐝" ∷ "🐞" ∷ "🐡" ∷ "🐢" ∷ "🐫" ∷ []

unfoldable pub adjectives : List String
adjectives =
    "Attractive" ∷ "Bald" ∷ "Beautiful" ∷ "Chubby" ∷ "Clean" ∷ "Dazzling" ∷ "Drab" ∷ "Elegant"
    ∷ "Fancy" ∷ "Fit" ∷ "Flabby" ∷ "Glamorous" ∷ "Gorgeous" ∷ "Handsome" ∷ "Long" ∷ "Magnificent"
    ∷ "Muscular" ∷ "Plain" ∷ "Plump" ∷ "Quaint" ∷ "Scruffy" ∷ "Shapely" ∷ "Short" ∷ "Skinny"
    ∷ "Stocky" ∷ "Ugly" ∷ "Unkempt" ∷ "Unsightly" ∷ "Ashy" ∷ "Black" ∷ "Blue" ∷ "Gray" ∷ "Green"
    ∷ "Icy" ∷ "Lemon" ∷ "Mango" ∷ "Orange" ∷ "Purple" ∷ "Red" ∷ "Salmon" ∷ "White" ∷ "Yellow"
    ∷ "Aggressive" ∷ "Agreeable" ∷ "Ambitious" ∷ "Brave" ∷ "Calm" ∷ "Delightful" ∷ "Eager"
    ∷ "Faithful" ∷ "Gentle" ∷ "Happy" ∷ "Jolly" ∷ "Kind" ∷ "Lively" ∷ "Nice" ∷ "Obedient" ∷ "Polite"
    ∷ "Proud" ∷ "Silly" ∷ "Thankful" ∷ "Victorious" ∷ "Witty" ∷ "Wonderful" ∷ "Zealous" ∷ "Broad"
    ∷ "Chubby" ∷ "Crooked" ∷ "Curved" ∷ "Deep" ∷ "Flat" ∷ "High" ∷ "Hollow" ∷ "Low" ∷ "Narrow"
    ∷ "Refined" ∷ "Round" ∷ "Shallow" ∷ "Skinny" ∷ "Square" ∷ "Steep" ∷ "Straight" ∷ "Wide" ∷ "Big"
    ∷ "Colossal" ∷ "Fat" ∷ "Gigantic" ∷ "Great" ∷ "Huge" ∷ "Immense" ∷ "Large" ∷ "Little"
    ∷ "Mammoth" ∷ "Massive" ∷ "Microscopic" ∷ "Miniature" ∷ "Petite" ∷ "Puny" ∷ "Scrawny" ∷ "Short"
    ∷ "Small" ∷ "Tall" ∷ "Teeny" ∷ "Tiny" ∷ []

unfoldable pub nouns : List String
nouns =
    "Area" ∷ "Book" ∷ "Business" ∷ "Case" ∷ "Child" ∷ "Company" ∷ "Country" ∷ "Day" ∷ "Eye" ∷ "Fact"
    ∷ "Family" ∷ "Government" ∷ "Group" ∷ "Hand" ∷ "Home" ∷ "Job" ∷ "Life" ∷ "Lot" ∷ "Man" ∷ "Money"
    ∷ "Month" ∷ "Mother" ∷ "Mr" ∷ "Night" ∷ "Number" ∷ "Part" ∷ "People" ∷ "Place" ∷ "Point"
    ∷ "Problem" ∷ "Program" ∷ "Question" ∷ "Right" ∷ "Room" ∷ "School" ∷ "State" ∷ "Story"
    ∷ "Student" ∷ "Study" ∷ "System" ∷ "Thing" ∷ "Time" ∷ "Water" ∷ "Way" ∷ "Week" ∷ "Woman"
    ∷ "Word" ∷ "Work" ∷ "World" ∷ "Year" ∷ []

-- A generator of the state `E`, and the distribution of the numbers from `lo` to `hi`.
pub record Generator (E : Type 0) : Type 0 where
  pub uniform : ℕ → ℕ → E → ℕ × E
  pub in_range :
      (lo hi : ℕ) (e : E) → lo ≤ hi → (lo ≤ (uniform lo hi e).0) × ((uniform lo hi e).0 ≤ hi)

-- The text of three words; a read past the end of a table is undefined.
unfoldable pub nickname_of : Option String → Option String → Option String → Option String
nickname_of (some a) (some j) (some n) =
    some (str_append a (str_append " " (str_append j (str_append " " n))))
nickname_of _ _ _ = none

module _ {E : Type 0} (g : Generator E) where
  unfoldable pub random : E → Option String × E
  random e =
      let (a, e1) = g.uniform 0 (avatars_size - 1) e in
      let (j, e2) = g.uniform 0 (adjectives_size - 1) e1 in
      let (n, e3) = g.uniform 0 (nouns_size - 1) e2 in
      (nickname_of (get_elem? avatars a) (get_elem? adjectives j) (get_elem? nouns n), e3)
