-- ===== src/Strategy/CryptoMeanReversion/Tests.antt =====
-- A short run of crypto_mean_reversion.
use open_quant_studio.Base.{◌≡◌, some, List, [], ◌∷◌, false, length}
use open_quant_studio.Base.Int.{pos}
use open_quant_studio.Strategy.Host.{Intent, Bar, replay, trace}
use open_quant_studio.Strategy.Discipline.{closes_since, Tape, flat, net_quantity, exposure}
use open_quant_studio.Strategy.CryptoMeanReversion.{State, on_start, on_bar}
use open_quant_studio.Strategy.CryptoMeanReversion.Rules.{
  profile, IsSound, phase, replay_crypto_mean_reversion,
}

abbrev bars : List Bar
bars =
    record { session_seq = 1; symbol = "S"; close_atoms = pos 100; session_end = false }
    ∷ record { session_seq = 2; symbol = "S"; close_atoms = pos 101; session_end = false }
    ∷ record { session_seq = 3; symbol = "S"; close_atoms = pos 102; session_end = false }
    ∷ record { session_seq = 4; symbol = "S"; close_atoms = pos 120; session_end = false }
    ∷ record { session_seq = 5; symbol = "S"; close_atoms = pos 80; session_end = false }
    ∷ []

replay_crypto_mean_reversion_example :
    (s : State) × (tape : List Intent) × (replay on_bar bars on_start.0 ≡ some (s, tape))
    × (calls : List (Bar × List Intent)) × (trace on_bar bars on_start.0 ≡ some calls)
    × IsSound (closes_since [] calls) s
    × Tape profile flat 0 tape (phase s) s.intent_seq
    × (s.intent_seq ≡ length tape)
    × (net_quantity tape ≡ exposure profile (phase s))
replay_crypto_mean_reversion_example = replay_crypto_mean_reversion bars
