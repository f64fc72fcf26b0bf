-- ===== src/Cli/Laws.antt =====
-- cli/cli.go: which arguments the command line takes.
use simple_blockchain_go.Base.{
  Bool, Bool-cases, Bytes, List, Option, [], arith, bytes_eq, bytes_eq_iff, false, if◌then◌else◌,
  inl, inr, none, refl, some, true, ◌↔◌, ◌∙◌, ◌∷◌, ◌≡◌, ◌≢◌, ◌⊎◌,
}
use simple_blockchain_go.Cli.{
  Command, Parsed, Parser, Values, address_word, airdrop_word, balance_word, client_word,
  genesis_word, index_panics, new_word, node_word, or_exit, parse_args, parse_client, parse_node,
  transfer_word,
}

-- A result that is not a panic.
abbrev Ends : Parsed → Type 0
Ends r = r ≢ index_panics

or_exit-Ends : (o : Option Values) (f : Values → Command) → Ends (or_exit o f)
or_exit-Ends none f = λ h. cc
or_exit-Ends (some v) f = λ h. cc

if-Ends : (c : Bool) (r s : Parsed) → Ends r → Ends s → Ends (if c then r else s)
if-Ends true r s hr hs = hr
if-Ends false r s hr hs = hs

module _ (parse : Parser) where
  parse_node-Ends : (sub : Bytes) (args : List Bytes) → Ends (parse_node parse (sub ∷ args))
  unfolding parse_node
  parse_node-Ends sub args =
      if-Ends (bytes_eq sub genesis_word) _ _ (or_exit-Ends _ _) (or_exit-Ends _ _)

  parse_client-Ends : (sub : Bytes) (args : List Bytes) → Ends (parse_client parse (sub ∷ args))
  unfolding parse_client
  parse_client-Ends sub args = if-Ends (bytes_eq sub new_word) _ _ (or_exit-Ends _ _) (
      if-Ends (bytes_eq sub address_word) _ _ (or_exit-Ends _ _) (
        if-Ends (bytes_eq sub balance_word) _ _ (or_exit-Ends _ _) (
          if-Ends (bytes_eq sub airdrop_word) _ _ (or_exit-Ends _ _)
            (if-Ends (bytes_eq sub transfer_word) _ _ (or_exit-Ends _ _) (λ h. cc)))))

  parse_args-Ends :
      (prog cmd sub : Bytes) (args : List Bytes) → Ends (parse_args parse (prog ∷ cmd ∷ sub ∷ args))
  unfolding parse_args
  parse_args-Ends prog cmd sub args =
      if-Ends (bytes_eq cmd node_word) _ _ (parse_node-Ends sub args)
        (if-Ends (bytes_eq cmd client_word) _ _ (parse_client-Ends sub args) (λ h. cc))

  -- The switch of `Run` on the arguments reads past their end, which panics, exactly if the program is
  -- given one argument, and that is "node" or "client".
  pub parse_args-index_panics :
      (args : List Bytes)
      → (parse_args parse args ≡ index_panics) ↔ (
          (prog : Bytes) × (cmd : Bytes) × (args ≡ prog ∷ cmd ∷ [])
          × ((cmd ≡ node_word) ⊎ (cmd ≡ client_word)))
  unfolding parse_args parse_node parse_client
  parse_args-index_panics [] = (λ h. absurd cc, λ (p, c, h, k). absurd cc)
  parse_args-index_panics (prog ∷ []) = (λ h. absurd cc, λ (p, c, h, k). absurd cc)
  parse_args-index_panics (prog ∷ cmd ∷ []) =
      let is_node = bytes_eq_iff cmd node_word in
      let is_client = bytes_eq_iff cmd client_word in
      (
        λ h. (
          prog,
          cmd,
          refl,
          elim (Bool-cases (bytes_eq cmd node_word)) [
            | inl node ↦ inl (is_node.0 node)
            | inr not_node ↦ elim (Bool-cases (bytes_eq cmd client_word)) [
              | inl client ↦ inr (is_client.0 client)
              | inr not_client ↦ absurd (ground arith)
            ]
          ],
        ),
        λ (p, c, h, k).
            let same : cmd ≡ c = cc in
            elim k [
              | inl node ↦ rw (is_node.1 (same ∙ node)) refl
              | inr client ↦ elim (Bool-cases (bytes_eq cmd node_word)) [
                | inl node ↦ rw node refl
                | inr not_node ↦ rw not_node (rw (is_client.1 (same ∙ client)) refl)
              ]
            ],
      )
  parse_args-index_panics (prog ∷ cmd ∷ sub ∷ args) =
      (λ h. absurd (parse_args-Ends prog cmd sub args h), λ (p, c, h, k). absurd cc)
