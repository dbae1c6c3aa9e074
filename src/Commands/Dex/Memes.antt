-- ===== src/Commands/Dex/Memes.antt =====
-- internal/commands/dex.go: the pools of meme tokens.
use crypto_sentinel.Prelude.{List, [], ◌∷◌, Bytes}
use crypto_sentinel.Go.Text.{text}

pub record MemeToken : Type 0 where
  pub symbol : Bytes
  pub name : Bytes

abbrev pub meme : Bytes → Bytes → MemeToken
meme symbol name = record { symbol = symbol; name = name }

abbrev ethereum_memes : List MemeToken
ethereum_memes =
    meme (text "pepe") (text "Pepe")
    ∷ meme (text "shib") (text "Shiba Inu")
    ∷ meme (text "bitdoge") (text "Bitcoin Doge")
    ∷ meme (text "doge") (text "Wrapped Dogecoin")
    ∷ meme (text "best") (text "Best Wallet Token")
    ∷ meme (text "turbo") (text "Turbo")
    ∷ meme (text "mog") (text "Mog Coin")
    ∷ meme (text "froge") (text "Froge")
    ∷ meme (text "pepu") (text "Pepe Unchained")
    ∷ meme (text "manyu") (text "Manyu")
    ∷ meme (text "elon") (text "Dogelon Mars")
    ∷ meme (text "cocoro") (text "Cocoro")
    ∷ meme (text "kishu") (text "Kishu Inu")
    ∷ meme (text "yee") (text "Yee Token")
    ∷ meme (text "bone") (text "Bone ShibaSwap")
    ∷ meme (text "pnkstr") (text "PunkStrategy")
    ∷ meme (text "ape") (text "ApeCoin")
    ∷ meme (text "spx") (text "SPX6900")
    ∷ meme (text "npc") (text "Non-Playable Coin")
    ∷ meme (text "booe") (text "Book of Ethereum")
    ∷ meme (text "spurdo") (text "SPURDO")
    ∷ meme (text "rekt") (text "Rekt")
    ∷ meme (text "pepe2") (text "Pepe 2.0")
    ∷ meme (text "pepe3") (text "Pepe 3.0")
    ∷ []

abbrev solana_memes : List MemeToken
solana_memes =
    meme (text "bonk") (text "BONK")
    ∷ meme (text "wif") (text "dogwifhat")
    ∷ meme (text "popcat") (text "Popcat")
    ∷ meme (text "bome") (text "BOOK OF MEME")
    ∷ meme (text "mew") (text "Cat in a Dogs World")
    ∷ meme (text "ponke") (text "PONKE")
    ∷ meme (text "michi") (text "MICHI")
    ∷ meme (text "samo") (text "Samoyedcoin")
    ∷ meme (text "slerf") (text "SLERF")
    ∷ meme (text "jeet") (text "JEET")
    ∷ meme (text "boden") (text "BODEN")
    ∷ meme (text "pippin") (text "Pippin")
    ∷ meme (text "ban") (text "Ban")
    ∷ meme (text "tuf") (text "TUF")
    ∷ meme (text "wolf") (text "Wolf on Sol")
    ∷ meme (text "pnut") (text "Peanut")
    ∷ meme (text "kitty") (text "Kitty on Sol")
    ∷ meme (text "tate") (text "TATE")
    ∷ []

abbrev bsc_memes : List MemeToken
bsc_memes =
    meme (text "babydoge") (text "Baby Doge Coin")
    ∷ meme (text "shib") (text "Shiba Inu (BSC)")
    ∷ meme (text "doge") (text "Dogecoin (BSC)")
    ∷ meme (text "floki") (text "Floki Inu (BSC)")
    ∷ meme (text "safemoon") (text "SafeMoon")
    ∷ meme (text "cake") (text "PancakeSwap")
    ∷ meme (text "poodl") (text "Poodl Token")
    ∷ meme (text "akita") (text "Akita Inu (BSC)")
    ∷ meme (text "kishu") (text "Kishu Inu (BSC)")
    ∷ meme (text "hoge") (text "Hoge Finance (BSC)")
    ∷ meme (text "elon") (text "Dogelon Mars (BSC)")
    ∷ meme (text "wojak") (text "Wojak (BSC)")
    ∷ meme (text "pepe") (text "Pepe (BSC)")
    ∷ meme (text "pepe2") (text "Pepe 2.0 (BSC)")
    ∷ meme (text "doki") (text "Doki Doki")
    ∷ meme (text "doggy") (text "Doggy")
    ∷ meme (text "moon") (text "Moon Token")
    ∷ meme (text "meme") (text "Meme Token")
    ∷ []

abbrev base_memes : List MemeToken
base_memes =
    meme (text "brett") (text "Brett on Base")
    ∷ meme (text "degen") (text "Degen")
    ∷ meme (text "toshi") (text "Toshi")
    ∷ meme (text "brian") (text "Brian")
    ∷ meme (text "based") (text "Based")
    ∷ meme (text "mfer") (text "mfercoin")
    ∷ meme (text "tybg") (text "TYBG (Thank You Base God)")
    ∷ meme (text "doginme") (text "Dog in Me")
    ∷ meme (text "catinme") (text "Cat in Me")
    ∷ meme (text "pepe") (text "Pepe on Base")
    ∷ meme (text "mog") (text "Mog on Base")
    ∷ meme (text "bongocat") (text "Bongo Cat")
    ∷ meme (text "smol") (text "Smol Base Meme")
    ∷ meme (text "blue") (text "Blue Base")
    ∷ meme (text "fish") (text "Fish on Base")
    ∷ []

abbrev arbitrum_memes : List MemeToken
arbitrum_memes =
    meme (text "aidoge") (text "AI Doge")
    ∷ meme (text "caw") (text "A Hunters Dream (CAW)")
    ∷ meme (text "pogai") (text "Poor Guy (POGAI)")
    ∷ meme (text "nut") (text "Nutcoin")
    ∷ meme (text "smol") (text "SmolCoin")
    ∷ meme (text "twoge") (text "Twoge Inu")
    ∷ meme (text "gnome") (text "Gnome")
    ∷ meme (text "nyan") (text "ArbiNYAN")
    ∷ meme (text "grimace") (text "Grimace (ARB)")
    ∷ meme (text "arbinu") (text "ArbInu")
    ∷ meme (text "arbpepe") (text "ArbPepe")
    ∷ meme (text "arbfloki") (text "ArbFloki")
    ∷ meme (text "arbwif") (text "ArbWIF")
    ∷ meme (text "arbshib") (text "ArbShib")
    ∷ meme (text "arbcat") (text "ArbCat")
    ∷ []

abbrev polygon_memes : List MemeToken
polygon_memes =
    meme (text "doge") (text "Dogecoin (Polygon)")
    ∷ meme (text "shib") (text "Shiba Inu (Polygon)")
    ∷ meme (text "floki") (text "Floki (Polygon)")
    ∷ meme (text "pepe") (text "Pepe (Polygon)")
    ∷ meme (text "wojak") (text "Wojak (Polygon)")
    ∷ meme (text "kishu") (text "Kishu (Polygon)")
    ∷ meme (text "akita") (text "Akita (Polygon)")
    ∷ meme (text "elon") (text "Dogelon (Polygon)")
    ∷ meme (text "babydoge") (text "Baby Doge (Polygon)")
    ∷ meme (text "hoge") (text "Hoge (Polygon)")
    ∷ meme (text "meme") (text "Meme Token (Polygon)")
    ∷ []

abbrev optimism_memes : List MemeToken
optimism_memes =
    meme (text "pepe") (text "Pepe (Optimism)")
    ∷ meme (text "shib") (text "Shiba Inu (Optimism)")
    ∷ meme (text "doge") (text "Dogecoin (Optimism)")
    ∷ meme (text "floki") (text "Floki (Optimism)")
    ∷ meme (text "wojak") (text "Wojak (Optimism)")
    ∷ meme (text "bonk") (text "BONK (Optimism)")
    ∷ meme (text "wif") (text "WIF (Optimism)")
    ∷ meme (text "degen") (text "Degen (Optimism)")
    ∷ meme (text "mfer") (text "mfercoin (Optimism)")
    ∷ meme (text "dogelon") (text "Dogelon Mars (Optimism)")
    ∷ []

abbrev pub meme_tokens_by_chain : List (Bytes × List MemeToken)
meme_tokens_by_chain =
    (text "ethereum", ethereum_memes)
    ∷ (text "solana", solana_memes)
    ∷ (text "bsc", bsc_memes)
    ∷ (text "base", base_memes)
    ∷ (text "arbitrum", arbitrum_memes)
    ∷ (text "polygon", polygon_memes)
    ∷ (text "optimism", optimism_memes)
    ∷ []
