-- ===== src/Cli/Flags.antt =====
-- `parse_args` of src/main.rs on well formed command lines.
use mathlib.Core.Option.{bind as and_then}
use traffic_director.Session.Keepalive.{from_secs}
use traffic_director.Cli.{
  Args, Parsers, read_flags, parse_args, set_flag, config_of, mode_of, Config, defaults,
}
use traffic_director.Server.{ShedMode, drain_mode, migrate_mode}
use traffic_director.Prelude.{ℕ, String, ◌≡◌, refl, Option, none, some, List, [], ◌∷◌, All}

pub data Setting : Type 0 where
  listens_on proxies_to : String → Setting
  drains_for : String → ℕ → Setting
  sheds_by : ShedMode → Setting

abbrev pub mode_word : ShedMode → String
mode_word drain_mode = "drain"
mode_word migrate_mode = "migrate"

-- The arguments as they are typed.
abbrev pub words : List Setting → List String
words [] = []
words (listens_on a ∷ settings) = "--listen" ∷ a ∷ words settings
words (proxies_to a ∷ settings) = "--broker" ∷ a ∷ words settings
words (drains_for t n ∷ settings) = "--drain-timeout-secs" ∷ t ∷ words settings
words (sheds_by mode ∷ settings) = "--mode" ∷ mode_word mode ∷ words settings

abbrev pub last_listen : List Setting → Option String → Option String
last_listen [] o = o
last_listen (listens_on a ∷ settings) o = last_listen settings (some a)
last_listen (_ ∷ settings) o = last_listen settings o

abbrev pub last_broker : List Setting → Option String → Option String
last_broker [] o = o
last_broker (proxies_to a ∷ settings) o = last_broker settings (some a)
last_broker (_ ∷ settings) o = last_broker settings o

abbrev pub last_timeout : List Setting → ℕ → ℕ
last_timeout [] d = d
last_timeout (drains_for t n ∷ settings) d = last_timeout settings (from_secs n)
last_timeout (_ ∷ settings) d = last_timeout settings d

abbrev pub last_mode : List Setting → ShedMode → ShedMode
last_mode [] m = m
last_mode (sheds_by mode ∷ settings) m = last_mode settings mode
last_mode (_ ∷ settings) m = last_mode settings m

-- The variables after the loop.
abbrev settled : List Setting → Args
settled settings = record {
  listen = last_listen settings none;
  broker = last_broker settings none;
  drain_timeout = last_timeout settings (from_secs 60);
  mode = last_mode settings drain_mode;
}

module _ {A : Type 0} (parsers : Parsers A) where
  -- Each timeout is the text of its number.
  abbrev pub Readable : Setting → Type 0
  Readable (drains_for t n) = parsers.seconds t ≡ some n
  Readable _ = Unit

  read_flags-words :
      (settings : List Setting) (args : Args)
      → All Readable settings
      → read_flags parsers (words settings) args
        ≡ some (record {
          listen = last_listen settings args.listen;
          broker = last_broker settings args.broker;
          drain_timeout = last_timeout settings args.drain_timeout;
          mode = last_mode settings args.mode;
        })
  unfolding read_flags set_flag mode_of and_then
  read_flags-words [] args h = refl
  read_flags-words (listens_on a ∷ settings) args h =
      read_flags-words settings (record args { listen = some a }) h.1
  read_flags-words (proxies_to a ∷ settings) args h =
      read_flags-words settings (record args { broker = some a }) h.1
  read_flags-words (drains_for t n ∷ settings) args h =
      rw h.0 (read_flags-words settings (record args { drain_timeout = from_secs n }) h.1)
  read_flags-words (sheds_by drain_mode ∷ settings) args h =
      read_flags-words settings (record args { mode = drain_mode }) h.1
  read_flags-words (sheds_by migrate_mode ∷ settings) args h =
      read_flags-words settings (record args { mode = migrate_mode }) h.1

  no_address : (a : Option A) → ◌≡◌ {A = Option (Config A)} (and_then a (λ listen. none)) none
  unfolding and_then
  no_address none = refl
  no_address (some a) = refl

  -- No broker, no configuration.
  no_broker :
      (o : Option String) (t : ℕ) (m : ShedMode)
      → config_of parsers (record { listen = o; broker = none; drain_timeout = t; mode = m }) ≡ none
  unfolding config_of and_then
  no_broker none t m = refl
  no_broker (some l) t m = no_address (parsers.address l)

  -- For any sequence of flags with their values, in any order and with any repetitions, in which a
  -- timeout is the text of a number: if it names a listen address and a broker, and the last of each is
  -- well formed, `parse_args` returns these two, the last timeout, or 60 s, and the last mode, or
  -- drain; if it does not name one of them, `parse_args` prints the usage.
  pub parse_args-words :
      (settings : List Setting)
      → All Readable settings
      → ((l b : String) (listen broker : A)
          → last_listen settings none ≡ some l
          → last_broker settings none ≡ some b
          → parsers.address l ≡ some listen
          → parsers.address b ≡ some broker
          → parse_args parsers (words settings)
            ≡ some (record {
              listen = listen;
              broker = broker;
              drain_timeout = last_timeout settings (from_secs 60);
              mode = last_mode settings drain_mode;
            }))
        × (last_listen settings none ≡ none → parse_args parsers (words settings) ≡ none)
        × (last_broker settings none ≡ none → parse_args parsers (words settings) ≡ none)
  unfolding parse_args config_of and_then
  parse_args-words settings h =
      let read : read_flags parsers (words settings) defaults ≡ some (settled settings) =
        read_flags-words settings defaults h in
      (
        λ l b listen broker el eb pl pb. rw (read, el, pl, eb, pb) refl,
        λ el. rw (read, el) refl,
        λ eb.
            rw (read, eb)
              (no_broker (last_listen settings none) (last_timeout settings (from_secs 60))
                (last_mode settings drain_mode)),
      )
