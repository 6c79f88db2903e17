-- ===== src/Lib.antt =====
-- kit-go: a model of parts of the library, and what holds of it.
--
-- The repository collects packages that depend little on one another: clickhouse takes the table
-- descriptions and the value conversion of mysql, and canal/v1 its statements from row events. The
-- parts modelled:
--
-- Mysql (mysql/). `Mysql.Value` is `ValueToString`, with `ValueToInterface` and `valueType`, of
--   mysql/mysql.go; `Mysql.Dml` is `DmlDefault` of mysql/dml.go, from `Insert`, `Update` and
--   `Delete` down to the text and its arguments. The table description is the schema package's. A
--   cell of a row event is a `Value`: what the code tells apart of an `interface{}`, and for any
--   other dynamic type its name and its printed form. An index out of range is a Go panic, and a
--   function that may panic returns `none` for it. `Mysql.Client` is the loop of three tries that
--   `UseDB`, `Execute` and `ExecuteSelectStreaming` of mysql/client.go share, over a driver that
--   changes a world of its own, with three as the bound of its recursion, and `GetNextPage`,
--   whose loop has fuel, enough where the ids have a greatest one; `Mysql.Dsn` is `ParseDsn`.
--   `Mysql.Schema` is the columns of a query and the statements that create tables and databases,
--   of mysql/mysql.go, over the answers of the server.
-- Clickhouse (clickhouse/). `Clickhouse.Dml` is `DmlClickhouse` of clickhouse/dml.go; the four
--   package variables that `UseOldVerFlag` replaces are the record `Flags`, and the clock is an
--   argument. `Clickhouse.Schema`, `Clickhouse.Policy`, `Clickhouse.Restore` and `Clickhouse.Ddl`
--   are clickhouse/clickhouse.go: how the syntax tree of a MySQL statement becomes a `Table`, the
--   keys, the sorting key and the partition of a new table, the text that is written, and
--   `ParserMysqlSQL` with its ALTER TABLE parts. The syntax tree is that of the parser package as
--   far as the code reads it; the parser, its names of types (`TypeToStr`) and its writer
--   (`RestoreCtx`) are parameters. A Go map is an association list, a pointer into the columns is a
--   place in the list. `Clickhouse.Unique` is `getUniqueColumnName`, which loops on fuel, one
--   more than the map has entries. `Clickhouse.Scan` is clickhouse/datatypes.go, with the driver's
--   columns and package decimal as parameters.
-- WeyosV1 (weyos/v1/). `WeyosV1.Struct` holds the NAT rules of weyos/v1/nat.go and what reflection
--   shows of them, `WeyosV1.Codec` is `marshal` and `unmarshal` with their functions for the two
--   kinds of rule, `WeyosV1.Records` is the list `nat` and its operations. The conversion to GB2312
--   is a parameter. `WeyosV1.Client` is the requests of weyos/v1/weyos.go about rules and addresses,
--   and `Arp` of weyos/v1/arp.go, over a router that is a record of what it answers and what a
--   request does to it; `WeyosV1.Traffic` is the rows of its traffic table.
-- Canal (canal/). `Canal.Master` is canal/master.go, with the content of its file and the answers of
--   the file system as arguments; `Canal.Work` is the loop `work` of canal/event.go, whose `select`
--   is a list of arrivals with the clock that each round reads; `Canal.Filter` is
--   canal/fileter.go, with the regular expressions as a parameter; `Canal.Run` is `Run` of
--   canal/canal.go, from the container to the position that the replication starts from.
--   `Canal.Export` is `FullDataExport` of canal/fullexport.go, over a session of the client.
-- CanalV1 (canal/v1/). `CanalV1.ParseStmt` is canal/v1/parseStmt.go; `CanalV1.Handler` is `OnDDL` and
--   `OnPosSynced` of canal/v1/handler.go, over callbacks that change a world of their own;
--   `CanalV1.Master` is canal/v1/master.go, with `SetGTID` and `Force` of canal/v1/canal.go, where
--   the encoding of the file is a parameter. Of canal/v1/canal.go, `CanalV1.Saving` is
--   `writeMasterInfo`, a relation of one round to the next, since the `select` leaves the order to
--   the environment; `CanalV1.Rows` is the two handlers of row events, of which the second calls
--   `Mysql.Dml`; `CanalV1.FullData` is the grouping and the query of `FetchFullData`, and
--   `GetAllCreateSql`.
-- Exporter (exporter/). `Exporter.Metric` is exporter/metric.go, with the channel as the list of what
--   was sent; `Exporter.Collector` is the flags and the registration of a collector of
--   exporter/exporter.go.
-- Wecom (wecom/). `Wecom.Token` is `New` and `refreshToken` of wecom/wecom.go, with the answers of
--   the server as a list.
-- Ipam (ipam/). `Ipam` is `allocIP`, `Dhcp` and `Static` of ipam/ipam.go, over the allocator of the
--   host-local plugin; `Ipam.Store` is the store of ipam/etcd.go, over a client that reads and puts.
-- Jq (jq/). `Jq` is `PickJson` of jq/jq.go up to the expression that is run.
-- Job (utils/job/). `Job.Jobs` is the list of jobs of utils/job/job.go; `Job.Board` is its two loops
--   up to the display, which differ in where the active entries come from. The channel, the ticks
--   and the end of the context are a list of arrivals.
-- Weyos (weyos/). `Weyos.Nat` is weyos/nat.go; package netip's addresses are a parameter.
--   `Weyos.Client` is the requests of weyos/weyos.go about rules, over a router that is a record of
--   what it answers and what a request does to it; what the client relies on of that router is the
--   record `RouterLaws`. `Weyos.Login` is `encryption`, with the numbers that it draws as an
--   argument; `Weyos.Protocols` is `parserProtocol`, over the lines of the file.
-- Common holds text, lists, decimal numbers and association lists. Text is a list of bytes;
-- where the source walks over runes, in `Jq` and the fields of a line, it is a list of runes.
--
-- Proofs stand in the modules below a component, named for what they prove, and runs and concrete
-- cases in its modules of tests.
--
-- Not modelled: network and process plumbing (ssh/, runc/, cni/, aliyun/, aws/, idrac/,
-- sangfor/, log/, loki/, promwrite/), which calls libraries and keeps no state of its own; the
-- goroutines of `FetchFullData` and of the exporter, whose order is left to the scheduler; the copy
-- of the RocketMQ client under rocketmq/client/ and the sample code in wecom/wxbizmsgcrypt.go, which
-- are other projects' code.
pub mod Canal
pub mod CanalV1
pub mod Clickhouse
pub mod Common
pub mod Exporter
pub mod Ipam
pub mod Job
pub mod Jq
pub mod Mysql
pub mod Wecom
pub mod Weyos
pub mod WeyosV1
