-- ===== src/Lib.antt =====
-- CryptoSentinel (go.mod: crypto-sentinel) is a chat agent for crypto markets. The agent library
-- hands each message to the agent (internal/agent), and it to the router
-- (internal/commands/dispatcher.go), which calls a command
-- (internal/commands), which asks the clients of the exchanges and market services
-- (internal/clients) or the service of price alerts (internal/services), whose checker runs
-- beside the commands and reads the prices through the same clients.
--
-- Files, and the code they model:
--   Models                  internal/models/alert.go, market.go: the structs, as records.
--   Services.Format         internal/services/format.go: F, IntComma.
--   Services.AlertService   internal/services/alert_service.go: the list of alerts on a heap of
--                           objects (NewAlertService, Add, List, Remove, Clear). Checker has
--                           StartChecker and checkAlerts as steps of a goroutine that the calls
--                           of users come between; a schedule is a list of events.
--   Clients.Config          internal/clients/clients.go: NewClients.
--   Clients.Wire            the replies of the exchanges, and their decoder.
--   Clients.Cex             internal/clients/cex.go: a module for each exchange with its gainers
--                           and losers, Ranking for what they end with, Fetch for FetchCexGainers,
--                           FetchCexLosers and IsSupportedCex.
--   Clients.Coingecko       internal/clients/coingecko.go: ResolveCoinID, FetchCoinMarket,
--                           FetchTopMarkets with CoinMarketCap in reserve, FetchConversionRate;
--                           Replies for what each makes of a response.
--   Commands.Alerts         internal/commands/alerts.go: the four alert commands.
--   Commands.Router         internal/commands/dispatcher.go: Handle, whose result is the call of a
--                           command.
--   Commands.Price          internal/commands/price.go: CmdPrice, CmdCompare.
--   Commands.Top            internal/commands/top.go: CmdTop.
--   Commands.Movers         internal/commands/gainers.go, losers.go: CmdGainers, CmdLosers.
--   Commands.GainersCex     internal/commands/gainers_cex.go: CmdGainersCEX, CmdGainersCompare.
--   Commands.LosersCex      internal/commands/losers_cex.go: CmdLosersCEX.
--   Commands.Digest         internal/commands/digest.go: CmdDigest.
--   Clients.Defillama       internal/clients/defillama.go: FetchProtocolTVL.
--   Commands.Tvl            internal/commands/tvl.go, tvl_chain.go, tvl_protocols.go: CmdTVL, and
--                           CmdTVLChain and CmdTVLProtocols in Chain and Protocols.
--   Commands.Sentiment      internal/commands/sentiment.go: CmdSentiment.
--   Commands.Chart          internal/commands/volatility.go, trend.go: CmdVolatility, CmdTrend.
--   Commands.FearGreed      internal/commands/feargreed.go: CmdFearGreed.
--   Commands.Convert        internal/commands/convert.go: CmdConvert; Rates for what it asks.
--   Commands.Gas            internal/commands/gas.go: CmdGas; Chains for its maps.
--   Commands.News           internal/commands/news.go: CmdNews.
--   Commands.Portfolio      internal/commands/portfolio.go: CmdPortfolio; Holdings for its sums.
--   Commands.Dex            internal/commands/dex.go: CmdDexPrice, CmdDexMeme; Memes for the pools,
--                           Search for searchBestDexPair.
--   Commands.Help           internal/commands/help.go: HelpText.
--   Commands.Requests       how many requests the commands send, and to which services.
--   Commands.Shared         the limit that several commands take, and the loop over the exchanges.
--   Agent                   internal/agent/agent.go: ProcessTask, with the calls that the router
--                           makes, since they need every command. A reply is none for a fault.
--                           Sessions and Watching put it beside the checker.
--   Main                    cmd/cryptosentinel/main.go: what main does, in order; NewCryptoSentinelAgent
--                           of internal/agent/agent.go.
--   Go                      what the code uses of the language and its standard library.
--   Prelude                 names, tests and lemmas that the modules share.
--   Examples                the theorems at concrete inputs, with a concrete library.
--
-- How the code is read:
--   - A string is the list of its bytes, a slice is a list, an int is a native natural where the
--     code keeps it at 0 or above (counts, indices, limits) and an integer over the naturals where
--     it may be negative (the index of Remove, IntComma). Time is a number.
--   - A float64 is its bit pattern. Comparisons are those of IEEE 754, NaN included; arithmetic,
--     %.nf and strconv.ParseFloat, which round, are fields of Go.Runtime, like the tables of the
--     package strings beyond ASCII and the escapes of net/url.
--   - A function that sends requests is a program of Go.Http: it returns, or sends a request and
--     goes on with any response. A theorem on it holds for all responses. The decoders of JSON are
--     an argument: they give the struct of the code or the text of an error.
--   - sort.Slice is a parameter with its documented contract (Go.Sort.IsSorter), which insertion
--     sort meets.
--   - The digits of a number are taken on fuel n + 1 for the number n, which is enough, since each
--     step divides by ten (Go.Decimal). Every other loop is structural.
--   - The order in which Go visits a map and a shuffle are a parameter that rearranges (Go.Chance).
--     The print of a time and strings.Title are fields of Go.Runtime too. The keys that commands
--     read from the environment are arguments, which Main fills in; os.Getenv and the error of
--     teneo.NewEnhancedAgent are arguments of main.
--   - A command whose code indexes a slice returns none where the index is out of range.
--   - The mutex of AlertService makes each access of the list one step.
--
-- Not modelled: teneo-agent-sdk, a copy of another project, which the program only starts; what is
-- left of the repository's own code are imports, the fields that are never read, and contexts.
pub mod Prelude
pub mod Go
pub mod Models
pub mod Services
pub mod Clients
pub mod Commands
pub mod Agent
pub mod Main
mod Examples
