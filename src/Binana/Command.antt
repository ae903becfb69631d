-- ===== src/Binana/Command.antt =====
-- `main` of calc_nversion.py. Reading a JSON file and `int` of a text belong to Python's library:
-- they are parameters.
use Prim.Native.String.{String}
use mutiny_net.Prelude.{ℕ, ◌≡◌, Option, none, some, List, [], ◌∷◌}
use mutiny_net.Prelude.Int.{ℤ}
use mutiny_net.Prelude.Result.{Result, ok, err, value_error, key_error, ◌>>=◌}
use mutiny_net.Hex.{hex_value, hex_padded}
use mutiny_net.Binana.{binana_id, signal_activate, signal_abandon}

-- The two members of the JSON document that are read, if they are there.
pub record Document : Type 0 where
  pub binana : Option (List ℤ)
  pub deployment : Option String

-- What is printed; the last three are eight or more hexadecimal digits.
pub record Report : Type 0 where
  pub name : String
  pub year : ℤ
  pub number : ℤ
  pub revision : ℤ
  pub id : List ℕ
  pub activate : List ℕ
  pub abandon : List ℕ

pub data Outcome : Type 0 where
  printed : Report → Outcome
  usage : Outcome

unfoldable pub report : String → ℤ → ℤ → ℤ → Report
unfolding hex_padded
report name year number revision =
    let bid = binana_id year number revision in
    record {
      name = name;
      year = year;
      number = number;
      revision = revision;
      id = hex_padded 8 bid;
      activate = hex_padded 8 (signal_activate bid);
      abandon = hex_padded 8 (signal_abandon bid);
    }

-- `data["binana"]`, and `year, number, revision = …`
unpack : Document → Result (ℤ × ℤ × ℤ)
unpack d = elim d.binana [
  | none ↦ err key_error
  | some (y ∷ n ∷ r ∷ []) ↦ ok (y, n, r)
  | some _ ↦ err value_error
]

-- `data.get("deployment", "?")`
deployment_name : Document → String
deployment_name d = elim d.deployment [ none ↦ "?" | some s ↦ s ]

module _ (load : String → Result Document) (to_int : String → Result ℤ) where
  unfoldable pub main : List String → Result Outcome
  unfolding unpack deployment_name report
  main (prog ∷ path ∷ []) = do
    document ← load path
    (year, number, revision) ← unpack document
    ok (printed (report (deployment_name document) year number revision))
  main (prog ∷ y ∷ n ∷ r ∷ []) = do
    year ← to_int y
    number ← to_int n
    revision ← to_int r
    ok (printed (report "?" year number revision))
  main _ = ok usage

abbrev IsFaithful : Report → Type 0
IsFaithful r =
    (hex_value r.id ≡ binana_id r.year r.number r.revision)
    × (hex_value r.activate ≡ signal_activate (binana_id r.year r.number r.revision))
    × (hex_value r.abandon ≡ signal_abandon (binana_id r.year r.number r.revision))
