-- ===== src/Lib.antt =====
-- cnode, an HTTP node server in C++ (libevent, Redis, MongoDB): models of its own code, outside the
-- vendored libraries, and what holds of them.
--
-- The server (server.cpp) hands each request to a handler derived from DealBase (deal_*.cpp). A
-- handler answers from the event thread or puts itself into the task pool (comm/taskpool.cpp), whose
-- threads take tasks from a shared queue with delays (comm/queue.h). Handlers borrow connections to
-- Redis and MongoDB from pools (redis/, mongo/), and use the string, Base64 and MD5 helpers of comm/.
--
-- Files, and the code they are about:
--   Prelude.antt, Prelude/   lists, bytes and `int` over native numbers, shared by all
--   Redis.antt               redis/redis.h: error codes, configuration, a connection, and what
--                            hiredis and the clock answer (`Env`)
--   RedisPool.antt           redis/redispool.cpp: `RedisConnPool`, with the heap of its connections;
--                            RedisPool/Client runs clients, RedisPool/Race interleaves threads
--   RedisCmd.antt            redis/redis.cpp: `Redis`, connecting and executing; RedisCmd/Wrappers has its
--                            commands
--   Xml.antt                 tinyxml/bmshxml.cpp: `BmshXml`, on elements that tinyxml has parsed
--   RedisConf.antt           redis/redispooladmin.cpp: the loop of `LoadPoolFromFile`
--   PoolAdmin.antt           redis/redispooladmin.cpp: `RedisConnPoolAdmin` on the model of its pools;
--                            PoolAdmin/Clients runs sequences of its calls
--   MongoPool.antt           mongo/mongopool.cpp: `MongoConnPool`, like RedisPool; MongoPool/Race has
--                            the threads of its `getConnect`
--   MongoAdmin.antt          mongo/mongopooladmin.cpp: `MongoConnPoolAdmin` on the model of its pools
--   Mongo.antt               mongo/mongo.cpp: `Mongo`, the commands of a connection
--   Queue.antt               comm/queue.h: `Queue`; each section under its mutex is one function;
--                            Queue/Items keeps a log, Queue/Delay interleaves sections with a clock
--   TaskPool.antt            comm/taskpool.cpp: `TaskPool` on two queues; TaskPool/Threads is the step
--                            relation of its threads, `addTask`, `setExit` and `unInit`,
--                            which overlap in any way
--   CmdReq.antt              deal_cmdreq.cpp: `DealCmdReq` from request to answer; CmdReq/Parse is
--                            `parseReqJson` behind rapidjson
--   ThreadData.antt          threaddata.cpp, and what dealbase.cpp does to it: `ThreadData` with the heap
--                            of its handlers; ThreadData/Lifetime is the step relation of handlers,
--                            ThreadData/Wakeup that of `postResume` and `PipeNotifyCB` (server.cpp)
--   Auth.antt                deal_auth.cpp: `DealAuth` from request to answer
--   CmdResp.antt             deal_cmdresp.cpp: `DealCmdResp`, and how dealbase.cpp reads a request
--   UserLog.antt             deal_userlog.cpp: `DealUserlog`: UserLog/Request parses its requests,
--                            UserLog/Tasks works on the two databases, UserLog/Once answers
--   Config.antt              comm/config.cpp: `Config`, and the readings of comm/bmsh_config.cpp;
--                            Config/Lines is the `fgets` of `load`, Config/Keys its
--                            table of keys
--   Server.antt              server.cpp: `Server`, and the arguments of main.cpp
--   IdManage.antt            idmanage.cpp: `IdMgr` on its shared memory
--   StrParse.antt            comm/strparse.cpp: `StrParse`
--   Base64.antt              comm/base64.cpp: `Base64`
--   Md5.antt, Md5/Transform  comm/md5.cpp: `MD5`, down to its rounds
-- The other files under a component hold its proofs, by what they prove, and Tests holds runs and
-- the theorems at concrete inputs. A name in snake case stands for the function in camel case:
-- `get_connect` for `getConnect`.
--
-- Numbers: an `int` counter of the Redis pool is an integer, and leaves no range in the statements;
-- lengths and indices are numbers, for inputs below 2^31 bytes; Base64 fails from 2^29 bytes on,
-- where the size of its block leaves `int`, and the 32-bit arithmetic of MD5 is written out, which
-- bounds an input by 2^32 - 64 bytes. A delay below 0 counts as 0. Rounds: loops over a buffer take its
-- length as their number of rounds, as each round moves on by a byte or more; the search for a key
-- in `PickOneJson` takes the length and one, and its model says so where they run out, as they can
-- for the empty name.
--
-- Shared state: the RedisPool, Queue and TaskPool models keep it as an explicit state and take one
-- locked section as one step; PoolAdmin and MongoAdmin take each call as one step, and their
-- `GetConnect` has two rounds of fuel, for the one call of itself. What another library answers
-- (hiredis, mongoc, pthread, rapidjson, the clock) is an argument of the definitions that use it,
-- for every value that it can have, a positive code of `addTask` among them, which comes with the
-- task in the queue; RedisCmd names what its theorems need of hiredis, `IsHiredis`,
-- and UserLog/Session what it needs of the two databases, `IsStore`. The waiting loop of Server has
-- as fuel the time over its step, and two; its theorem says that this is enough.
--
-- Not modelled: the loop of libevent, signals and processes (server.cpp, main.cpp, comm/daemon.h,
-- comm/mutiprocess.h), the HTTP client (httpclient.cpp), logging, locks, sockets and files (comm/),
-- which are calls of the system, and the vendored libraries.
pub mod Prelude
pub mod Redis
pub mod RedisPool
pub mod Xml
pub mod RedisConf
pub mod PoolAdmin
pub mod RedisCmd
pub mod StrParse
pub mod Base64
pub mod Queue
pub mod TaskPool
pub mod Md5
pub mod CmdReq
pub mod Auth
pub mod CmdResp
pub mod IdManage
pub mod ThreadData
pub mod UserLog
pub mod MongoPool
pub mod MongoAdmin
pub mod Mongo
pub mod Config
pub mod Server
