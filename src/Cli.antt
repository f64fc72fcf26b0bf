-- ===== src/Cli.antt =====
-- cli/cli.go and main.go: the command line.
pub mod Laws
pub mod Commands
use simple_blockchain_go.Base.{
  Bytes, List, Option, [], bytes_eq, if◌then◌else◌, none, some, ℕ, ◌∷◌, ◌≡◌,
}

-- The words of the command line, letter by letter.
abbrev pub node_word : Bytes
node_word = b'n' ∷ b'o' ∷ b'd' ∷ b'e' ∷ []

abbrev pub genesis_word : Bytes
genesis_word = b'g' ∷ b'e' ∷ b'n' ∷ b'e' ∷ b's' ∷ b'i' ∷ b's' ∷ []

abbrev pub client_word : Bytes
client_word = b'c' ∷ b'l' ∷ b'i' ∷ b'e' ∷ b'n' ∷ b't' ∷ []

abbrev pub new_word : Bytes
new_word = b'n' ∷ b'e' ∷ b'w' ∷ []

abbrev pub address_word : Bytes
address_word = b'a' ∷ b'd' ∷ b'd' ∷ b'r' ∷ b'e' ∷ b's' ∷ b's' ∷ []

abbrev pub balance_word : Bytes
balance_word = b'b' ∷ b'a' ∷ b'l' ∷ b'a' ∷ b'n' ∷ b'c' ∷ b'e' ∷ []

abbrev pub airdrop_word : Bytes
airdrop_word = b'a' ∷ b'i' ∷ b'r' ∷ b'd' ∷ b'r' ∷ b'o' ∷ b'p' ∷ []

abbrev pub transfer_word : Bytes
transfer_word = b't' ∷ b'r' ∷ b'a' ∷ b'n' ∷ b's' ∷ b'f' ∷ b'e' ∷ b'r' ∷ []

abbrev pub mynode_word : Bytes
mynode_word = b'm' ∷ b'y' ∷ b'n' ∷ b'o' ∷ b'd' ∷ b'e' ∷ []

abbrev pub default_word : Bytes
default_word = b'd' ∷ b'e' ∷ b'f' ∷ b'a' ∷ b'u' ∷ b'l' ∷ b't' ∷ []

abbrev pub default_sync_port : Bytes
default_sync_port = b'3' ∷ b'0' ∷ b'0' ∷ b'0' ∷ []

abbrev pub default_consensus_port : Bytes
default_consensus_port = b'5' ∷ b'0' ∷ b'0' ∷ b'0' ∷ []

abbrev pub default_rpc_port : Bytes
default_rpc_port = b'8' ∷ b'0' ∷ b'0' ∷ b'0' ∷ []

-- The values of the flags, each under its letter.
pub record Values : Type 0 where
  pub n : Bytes
  pub s : Bytes
  pub c : Bytes
  pub r : Bytes
  pub p : Bytes
  pub t : Bytes
  pub a : ℕ

-- What the code uses of package flag: `Parse` of a set of flags, of the letters that it declares and
-- their defaults, on arguments. Where they are not such flags, the process exits.
abbrev pub Parser : Type 0
Parser = List ℕ → Values → List Bytes → Option Values

-- What the documentation of package flag promises of flags that are not set.
abbrev pub IsParser : Parser → Type 0
IsParser parse = (letters : List ℕ) (defaults : Values) → parse letters defaults [] ≡ some defaults

abbrev no_values : Values
no_values = record {
  n = default_word;
  s = [];
  c = [];
  r = [];
  p = default_rpc_port;
  t = default_word;
  a = 1;
}

-- The flags of `node`, and those of the subcommands of `node` and of `client`.
abbrev pub node_values : Values
node_values = record no_values {
  n = mynode_word;
  s = default_sync_port;
  c = default_consensus_port;
  r = default_rpc_port;
}

abbrev pub genesis_values : Values
genesis_values = record no_values { n = mynode_word }

abbrev pub client_values : Values
client_values = no_values

pub data Command : Type 0 where
  start_generator : Bytes → Command
  start_node : Bytes → Bytes → Bytes → Bytes → Command
  new_account : Bytes → Command
  show_address : Bytes → Command
  show_balance : Bytes → Bytes → Command
  ask_airdrop : Bytes → ℕ → Bytes → Command
  send_transfer : Bytes → ℕ → Bytes → Bytes → Command
  do_nothing : Command

-- What becomes of the arguments: the process exits, or the index of an argument is out of range, or a
-- command runs.
pub data Parsed : Type 0 where
  exits : Parsed
  index_panics : Parsed
  runs : Command → Parsed

abbrev pub or_exit : Option Values → (Values → Command) → Parsed
or_exit none f = exits
or_exit (some v) f = runs (f v)

module _ (parse : Parser) where
  -- The case `node` of `Run`, on the arguments after it.
  unfoldable pub parse_node : List Bytes → Parsed
  parse_node [] = index_panics
  parse_node (sub ∷ args) =
      if bytes_eq sub genesis_word
      then or_exit (parse (b'n' ∷ []) genesis_values args) (λ v. start_generator v.n)
      else or_exit (parse (b'n' ∷ b's' ∷ b'c' ∷ b'r' ∷ []) node_values (sub ∷ args))
          (λ v. start_node v.n v.s v.c v.r)

  -- The case `client`.
  unfoldable pub parse_client : List Bytes → Parsed
  parse_client [] = index_panics
  parse_client (sub ∷ args) =
      if bytes_eq sub new_word
      then or_exit (parse (b'n' ∷ []) client_values args) (λ v. new_account v.n)
      else if bytes_eq sub address_word
      then or_exit (parse (b'n' ∷ []) client_values args) (λ v. show_address v.n)
      else if bytes_eq sub balance_word
      then or_exit (parse (b'n' ∷ b'p' ∷ []) client_values args) (λ v. show_balance v.n v.p)
      else if bytes_eq sub airdrop_word
      then or_exit (parse (b'n' ∷ b'a' ∷ b'p' ∷ []) client_values args)
          (λ v. ask_airdrop v.n v.a v.p)
      else if bytes_eq sub transfer_word
      then or_exit (parse (b'n' ∷ b'a' ∷ b't' ∷ b'p' ∷ []) client_values args)
          (λ v. send_transfer v.n v.a v.t v.p)
      else runs do_nothing

  -- The switch of `Run`, on `os.Args`, after `validateArgs`.
  unfoldable pub parse_args : List Bytes → Parsed
  unfolding parse_node parse_client
  parse_args [] = exits
  parse_args (prog ∷ []) = exits
  parse_args (prog ∷ cmd ∷ args) =
      if bytes_eq cmd node_word
      then parse_node args
      else if bytes_eq cmd client_word
      then parse_client args
      else runs do_nothing
