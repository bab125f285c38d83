-- ===== src/Lib.antt =====
-- The APY core contracts and their off-chain JavaScript: the scripts that deploy, register and upgrade
-- contracts and that spread the LP account's money over strategies, the helpers that they share, and
-- the contracts that keep the addresses, the prices and the shares of the pools, list what is
-- deployed, and deploy it.
--
-- How the parts work together. A script reads its arguments and environment variables, makes a signer
-- (a key of the environment, or a Gnosis Safe whose owners confirm by hand), deploys a contract, waits
-- for the receipt, registers the contract, and verifies it on Etherscan. Amounts are converted from
-- decimal texts to integers, and addresses of contracts are kept in one JSON file per contract.
--
-- On the chain the address registry gives every contract the addresses of the others. The oracle
-- adapter finds the supply of mAPT through it, and gives the TVL and the prices to mAPT and the pools;
-- a pool's value is its own tokens and its share of the TVL, which mAPT records. The TVL is the sum
-- over the tokens of the allocations that the TVL manager lists. The LP account deploys funds with
-- zaps, whose allocations have to be listed there; and the manager, the allocation of plain tokens
-- and the account lock the oracle whenever they change what the TVL is.
--
-- Which file models what, with paths from the root of the repository:
--   Strategies  scripts/alpha/calculate-deploy-amounts.js: the budget of each strategy. Amounts are
--               integers, and normalized amounts are in units of 10 ^ -18, as in the script.
--   TokenUnit   utils/helpers/unit.js: tokenAmountToBigNumber and dai. BigNumber.from is a parameter
--               with its documented behaviour on decimal texts as hypotheses. The loop that pads the
--               fraction has as much fuel as there are decimals, and each round adds one digit.
--   Address     utils/constants.js and utils/helpers/address.js: the tables, and the files of
--               addresses as a state with the module cache of require, whose objects are shared.
--   Script      what the scripts do to the outside world. A script is a tree: a call, and what follows
--               each answer or rejection. Reads of properties of a library's objects are calls too.
--               What is printed is left out. Monitor says what all runs of a tree obey, Common has
--               what the scripts share, utils/helpers/registry.js and the fees of
--               utils/helpers/gas.js, whose getGasPrice is Gas, and Proxy is utils/helpers/proxy.js.
--   Safe        utils/helpers/safe.js: signers of the Safes, and waitForSafeTxReceipt. Its two loops
--               end only when the outside world answers, so their fuel is a parameter: n + 1 rounds
--               are enough where the world has its answers from its n-th call on. Created is the
--               monitor of what is proposed, waited for, created, registered and verified, and
--               Waits shows that the wait follows it.
--   Alpha       scripts/alpha/{zap,swap,allocation}_deploy.js, and, in Setup, Factories and Stops,
--               scripts/alpha/{0_factories,1_deployment_contract,2_upgrader_contract}.js.
--   Deployer    scripts/deploy: the whole deployment that the tests start from. The scripts inside a
--               Promise.all take turns by a schedule, which is any list of numbers (Script.Interleave).
--   Deploys     scripts/rinkeby (Rinkeby, and the escrow in Owner), scripts/mainnet and scripts/kovan
--               (Logic and Owner). Scripts that differ in names and arguments only share one body.
--   Prices      utils/helpers/coingecko.js: retries, the coin of each symbol, and prices. A number of
--               retries is enough fuel for the countdown.
--   Local       utils/helpers/account.js, token.js, aggregator.js and, in Tvl, test-helper.js,
--               scripts/frontend and scripts/demo.
--   Contract    calls of contracts as functions from the storage to a value and the next storage, or
--               the text of a revert; SafeMath, SignedSafeMath and ERC20 of OpenZeppelin as interfaces
--               with their documented behaviour, each with functions that show that it can hold; so is
--               EnumerableSet. Access is contracts/common/AccessControl.sol over hasRole.
--   Registry    contracts/registry/AddressRegistryV2.sol: Ids is the array of ids, Calls has the
--               functions, Names the getters of the platform, and Events reads the state off the log.
--   Oracle      contracts/oracle/OracleAdapter.sol: State and Calls, the getters in Values, and the
--               transactions as data with the states that they reach in Requests.
--   Pool        contracts/pool/PoolTokenV3.sol and contracts/mapt/MetaPoolTokenV2.sol: Amounts and
--               TopUp compute over what is read of other contracts, Deposit has addLiquidity and redeem
--               on the tokens, Settings the locks and the settings, Meta has the batches that mint and burn
--               mAPT and Rebalance the fundings and withdrawals around them, and the other files
--               prove what they come to.
--   Named       contracts/libraries/NamedAddressSet.sol: Calls has the functions of a set of contracts
--               with names, Invariant the states that they reach, and Listing the names of a set.
--   Tvl         contracts/tvl: Calls is TvlManager.sol with the ids of Ids, Tokens is
--               Erc20Allocation.sol over AssetAllocationBase.sol, and both lock the oracle of Oracle.
--   LpAccount   contracts/lpaccount/LpAccountV2.sol: Checks has the lock and the registrations that a
--               zap needs, Fees the fees on rewards, Calls the other functions. A zap's code is a
--               function of the state of tokens and protocols, a parameter.
--   Base        lists, integers, texts, objects used as maps, and code that changes a state.
--
-- Numbers of the contracts are words of 256 bits: an operation of SafeMath reverts where its result
-- does not fit, and 10 ** decimals wraps. Reads and writes out of an array's bounds revert.
--
-- Not modelled: the answers of the libraries and of the chain, which are arbitrary; exit codes and
-- command line parsing; the arithmetic of JavaScript numbers in getGasPrice, a parameter; the events
-- of the contracts other than the registry, and the guards against reentrancy; of the pools and of
-- mAPT the initializers and the emergency exit; the zaps, the swaps and
-- the allocations of protocols, whose code is elsewhere; the other contracts, the subgraph, and the
-- tests.
pub mod Base
pub mod Strategies
pub mod TokenUnit
pub mod Address
pub mod Script
pub mod Safe
pub mod Alpha
pub mod Deploys
pub mod Deployer
pub mod Prices
pub mod Local
pub mod Contract
pub mod Oracle
pub mod Registry
pub mod Pool
pub mod Named
pub mod Tvl
pub mod LpAccount
