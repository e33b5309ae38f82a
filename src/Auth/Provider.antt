-- ===== src/Auth/Provider.antt =====
-- auth/provider: `MockProvider` of mock.go, the only provider. The name in an identity, a fixed text and
-- four digits, is left out.
use otvoren_vot.Prelude.{Bool, true, false, Option, none, some, Bytes, length, ◌==◌, ascii}
use otvoren_vot.Collection.Handler.{after_prefix, all_digits}

pub record Identity : Type 0 where
  pub egn : Bytes
  pub is_eligible : Bool

-- strings.HasPrefix
unfoldable pub has_prefix : Bytes → Bytes → Bool
unfolding after_prefix
has_prefix prefix bytes = elim (after_prefix prefix bytes) [ none ↦ false | some rest ↦ true ]

unfoldable pub mock_identity : Bytes → Option Identity
unfolding all_digits has_prefix
mock_identity egn = elim (length egn == 10) [
  | false ↦ none
  | true ↦ elim (all_digits egn) [
    | false ↦ none
    | true ↦ some (record {
      egn = egn;
      is_eligible = elim (has_prefix (ascii "00") egn) [ true ↦ false | false ↦ true ];
    })
  ]
]

-- `Authenticate`: it never fails, and none is the nil identity of a token that is not valid.
unfoldable pub mock_authenticate : Bytes → Option Identity
unfolding mock_identity after_prefix
mock_authenticate token = elim (after_prefix (ascii "mock-") token) [
  | none ↦ none
  | some egn ↦ mock_identity egn
]
